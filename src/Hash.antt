-- ===== src/Hash.antt =====
-- lib/hashmap.c and lib/hashmap.h: the table from names to values, with HM_BUCKETS chains. A key is the
-- list of its characters before the terminating 0. The chains, linked lists in the source, are lists,
-- and the iterators over them are always allocated.
pub mod Buckets
pub mod Table
mod Tests
use choochoo_os.Base.{
  ℕ, suc, ◌+◌, ◌-◌, ◌*◌, ◌%◌, ◌^◌, Bool, true, false, ◌&&◌, Option, none, some, ltb, ◌==◌,
  if◌then◌else◌, update, List, [], ◌∷◌, ◌++◌, length,
}
use choochoo_os.Base.Int.{ℤ, pos, negsuc}

abbrev pub Key : Type 0
Key = List ℕ

abbrev pub hm_buckets : ℕ
hm_buckets = 67

-- The size of the array `key` of a node.
abbrev pub key_size : ℕ
key_size = 40

pub record HashMapNode : Type 0 where
  pub key : Key
  pub value : ℕ

pub record HashMap : Type 0 where
  pub buckets : ℕ → List HashMapNode
  pub size : ℕ

-- strcmp(a, b) == 0.
abbrev pub eq_key : Key → Key → Bool
eq_key [] [] = true
eq_key [] (_ ∷ _) = false
eq_key (_ ∷ _) [] = false
eq_key (x ∷ a) (y ∷ b) = x == y && eq_key a b

unfoldable pub hash_from : ℕ → Key → ℕ
hash_from h [] = h
hash_from h (c ∷ key) = hash_from ((31 * h + c) % 2 ^ 32) key

unfoldable pub hash : Key → ℕ
hash key = hash_from 0 key % hm_buckets

abbrev pub new_hashmap : HashMap
new_hashmap = record { buckets = λ _. []; size = 0 }

-- The walk for a key: the value of the first node that has it.
unfoldable pub find : Key → List HashMapNode → Option ℕ
find key [] = none
find key (n ∷ ns) = let rest = find key ns in if eq_key n.key key then some n.value else rest

-- The walk of hashmap_insert: the chain with the value of an existing node set.
unfoldable pub set_value : Key → ℕ → List HashMapNode → Option (List HashMapNode)
set_value key v [] = none
set_value key v (n ∷ ns) =
    let rest = set_value key v ns in
    if eq_key n.key key
    then some (record n { value = v } ∷ ns)
    else elim rest [ none ↦ none | some ns' ↦ some (n ∷ ns') ]

-- The walk of hashmap_remove: the chain without the first node that has the key.
unfoldable pub unlink : Key → List HashMapNode → Option (List HashMapNode)
unlink key [] = none
unlink key (n ∷ ns) =
    let rest = unlink key ns in
    if eq_key n.key key then some ns else elim rest [ none ↦ none | some ns' ↦ some (n ∷ ns') ]

abbrev pub with_bucket : ℕ → List HashMapNode → ℕ → HashMap → HashMap
with_bucket i ns size hm = record { buckets = update hm.buckets i ns; size = size }

-- `room` is whether a node can be allocated. `none` is the copy of a key past the end of its array.
unfoldable pub hashmap_insert : Bool → HashMap → Key → ℕ → Option (ℤ × HashMap)
hashmap_insert room hm key v =
    let bucket = hm.buckets (hash key) in
    let new : HashMapNode = record { key = key; value = v } in
    elim (set_value key v bucket) [
      | some bucket' ↦ some (pos 0, with_bucket (hash key) bucket' hm.size hm)
      | none ↦
          if room
          then (if ltb (length key) key_size
              then some (pos 0, with_bucket (hash key) (bucket ++ new ∷ []) (hm.size + 1) hm)
              else none)
          else some (negsuc 0, hm)
    ]

unfoldable pub hashmap_contains : HashMap → Key → Bool
hashmap_contains hm key = elim (find key (hm.buckets (hash key))) [ none ↦ false | some _ ↦ true ]

unfoldable pub hashmap_remove : HashMap → Key → Bool × HashMap
hashmap_remove hm key = elim (unlink key (hm.buckets (hash key))) [
  | none ↦ (false, hm)
  | some bucket ↦ (true, with_bucket (hash key) bucket (hm.size - 1) hm)
]

-- `none` is NULL with `success` false.
unfoldable pub hashmap_get : HashMap → Key → Option ℕ
hashmap_get hm key = find key (hm.buckets (hash key))

abbrev pub hashmap_length : HashMap → ℕ
hashmap_length hm = hm.size
