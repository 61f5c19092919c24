-- ===== src/Hash/Table.antt =====
-- The table of lib/hashmap.c as a finite map.
use mathlib.Core.Path.{subst}
use choochoo_os.Base.{
  ℕ, zero, suc, ◌+◌, ◌-◌, ◌≤◌, ◌<◌, ◌≡◌, refl, inl, inr, Option-cases, lt→ltb, ap, sym, ◌∙◌, Bool,
  true, false, Bool-cases, Option, none, some, ◌==◌, ==→eq, ==→ne, if◌then◌else◌, update, update_ne,
  List, [], ◌∷◌, length, length-append, arith,
}
use choochoo_os.Base.Int.{ℤ, pos}
use choochoo_os.Hash.{
  Key, HashMap, HashMapNode, hash, hm_buckets, eq_key, find, set_value, unlink, with_bucket,
  hashmap_insert, hashmap_get, hashmap_remove, hashmap_contains, hashmap_length, key_size,
  new_hashmap,
}
use choochoo_os.Hash.Buckets.{
  put, Distinct, Walked, set_value-Walked, find-put, Distinct-put, Unlinked, unlink-Unlinked,
  eq_key→eq,
}

-- The entries in the first `n` buckets.
unfoldable pub total : ℕ → (ℕ → List HashMapNode) → ℕ
total zero b = 0
total (suc n) b = length (b n) + total n b

-- No chain has a key twice, and the size counts the entries.
pub record IsTable (hm : HashMap) : Type 0 where
  pub distinct : (i : ℕ) → Distinct (hm.buckets i)
  pub counted : hm.size ≡ total hm_buckets hm.buckets

total-above :
    (n i : ℕ) (b : ℕ → List HashMapNode) (ns : List HashMapNode)
    → n ≤ i
    → total n (update b i ns) ≡ total n b
unfolding total
total-above zero i b ns le = refl
total-above (suc n) i b ns le =
    rw (update_ne b i n ns (omega arith), total-above n i b ns (omega arith)) refl

total-update :
    (n i : ℕ) (b : ℕ → List HashMapNode) (ns : List HashMapNode)
    → i < n
    → total n (update b i ns) + length (b i) ≡ total n b + length ns
unfolding total
total-update zero i b ns lt = absurd (omega arith)
total-update (suc n) i b ns lt = elim (Bool-cases (i == n)) [
  | inl e ↦
      let at = ==→eq i n e in
      let here : length (update b i ns n) ≡ length ns = rw e refl in
      let below = total-above n i b ns (omega arith) in
      let was : length (b i) ≡ length (b n) = ap (λ k. length (b k)) at in
      omega (arith, here, below, was)
  | inr e ↦
      let away : length (update b i ns n) ≡ length (b n) = rw e refl in
      let rest = total-update n i b ns (omega (arith, ==→ne i n e)) in omega (arith, away, rest)
]

hash-bound : (key : Key) → hash key < hm_buckets
unfolding hash
hash-bound key = omega arith

module _ (hm : HashMap) (key : Key) (ns : List HashMapNode) (size : ℕ) where
  -- A chain replaced: looking a key up sees the new chain at its own hash and the old ones elsewhere.
  get-with_bucket :
      (r : Option ℕ)
      → ((j : Key) → find j ns ≡ (if eq_key key j then r else find j (hm.buckets (hash key))))
      → (j : Key)
      → hashmap_get (with_bucket (hash key) ns size hm) j
        ≡ (if eq_key key j then r else hashmap_get hm j)
  unfolding hashmap_get
  get-with_bucket r h j = elim (Bool-cases (hash key == hash j)) [
    | inl e ↦ let same = ==→eq (hash key) (hash j) e in rw e (h j ∙ rw same refl)
    | inr e ↦ rw (e, other_key j e) refl
  ]
    where
      other_key : (j : Key) → (hash key == hash j) ≡ false → eq_key key j ≡ false
      other_key j e = elim (Bool-cases (eq_key key j)) [
        | inl k ↦ absurd (==→ne (hash key) (hash j) e (ap hash (eq_key→eq key j k)))
        | inr k ↦ k
      ]

  IsTable-with_bucket :
      IsTable hm
      → Distinct ns
      → size + length (hm.buckets (hash key)) ≡ hm.size + length ns
      → IsTable (with_bucket (hash key) ns size hm)
  IsTable-with_bucket v d e = record {
    distinct = λ i. distinct_at i;
    counted =
        let t = total-update hm_buckets (hash key) hm.buckets ns (hash-bound key) in
        let c = v.counted in omega (arith, t, c, e);
  }
    where
      distinct_at : (i : ℕ) → Distinct (update hm.buckets (hash key) ns i)
      distinct_at i = elim (Bool-cases (hash key == i)) [
        | inl k ↦ rw k d
        | inr k ↦ rw k (v.distinct i)
      ]

-- What an insertion comes to: its result, each lookup after it, and the number of entries.
abbrev pub Inserted : HashMap → Key → ℕ → Option (ℤ × HashMap) → Type 0
Inserted hm key v result =
    (hm' : HashMap) × (result ≡ some (pos 0, hm'))
    × ((j : Key) → hashmap_get hm' j ≡ (if eq_key key j then some v else hashmap_get hm j))
    × (hashmap_length hm'
        ≡ (if hashmap_contains hm key then hashmap_length hm else hashmap_length hm + 1))
    × IsTable hm'

module _ (hm : HashMap) (key : Key) where
  contains-find :
      (r : Option ℕ)
      → find key (hm.buckets (hash key)) ≡ r
      → hashmap_contains hm key ≡ elim r [ none ↦ false | some _ ↦ true ]
  unfolding hashmap_contains
  contains-find r e = rw (hashmap_contains, e) refl

  get-absent :
      find key (hm.buckets (hash key)) ≡ none
      → (j : Key) → hashmap_get hm j ≡ (if eq_key key j then none else hashmap_get hm j)
  unfolding hashmap_get
  get-absent absent j = elim (Bool-cases (eq_key key j)) [
    | inl k ↦ rw k (ap (λ i. find i (hm.buckets (hash i))) (sym (eq_key→eq key j k)) ∙ absent)
    | inr k ↦ rw k refl
  ]

module _ (hm : HashMap) (key : Key) (v : ℕ) (ok : IsTable hm) where
  put-Inserted :
      (size : ℕ)
      → size + length (hm.buckets (hash key)) ≡ hm.size + length (put key v (hm.buckets (hash key)))
      → size ≡ (if hashmap_contains hm key then hashmap_length hm else hashmap_length hm + 1)
      → Inserted hm key v
          (some (pos 0, with_bucket (hash key) (put key v (hm.buckets (hash key))) size hm))
  put-Inserted size e n =
      let bucket = hm.buckets (hash key) in
      (
        with_bucket (hash key) (put key v bucket) size hm,
        refl,
        get-with_bucket hm key (put key v bucket) size (some v) (λ j. find-put key v j bucket),
        n,
        IsTable-with_bucket hm key (put key v bucket) size ok
            (Distinct-put key v bucket (ok.distinct (hash key))) e,
      )

  -- With room for a node and for the key, an insertion succeeds; the key then has the value, every
  -- other key has the value it had, and the size grows by one exactly if the key is new.
  pub hashmap_insert-Inserted :
      length key < key_size → Inserted hm key v (hashmap_insert true hm key v)
  unfolding hashmap_insert
  hashmap_insert-Inserted fits =
      let bucket = hm.buckets (hash key) in
      let w = set_value-Walked key v bucket in
      elim (Option-cases (set_value key v bucket)) [
        | inl e ↦
            let (absent, p) = subst (Walked key v bucket) e w in
            let result : hashmap_insert true hm key v
                ≡ some (pos 0, with_bucket (hash key) (put key v bucket) (hm.size + 1) hm) =
              rw (hashmap_insert, e, lt→ltb (length key) key_size fits, p) refl in
            let longer =
              ap length p ∙ length-append bucket (record { key = key; value = v } ∷ []) in
            subst (Inserted hm key v) (sym result) (
              put-Inserted (hm.size + 1) (omega (arith, longer))
                (rw (contains-find hm key none absent) refl))
        | inr (bucket', e) ↦
            let (p, l, (u, there)) = subst (Walked key v bucket) e w in
            let result : hashmap_insert true hm key v
                ≡ some (pos 0, with_bucket (hash key) (put key v bucket) hm.size hm) =
              rw (hashmap_insert, e, p) refl in
            let same = ap length p in
            subst (Inserted hm key v) (sym result) (
              put-Inserted hm.size (omega (arith, l, same))
                (rw (contains-find hm key (some u) there) refl))
      ]

-- What a removal comes to.
abbrev pub Removed : HashMap → Key → Bool × HashMap → Type 0
Removed hm key (found, hm') =
    (found ≡ hashmap_contains hm key)
    × ((j : Key) → hashmap_get hm' j ≡ (if eq_key key j then none else hashmap_get hm j))
    × (hashmap_length hm ≡ (if found then hashmap_length hm' + 1 else hashmap_length hm'))
    × IsTable hm'

-- A removal says whether the key was there; afterwards the key has no value, every other key has the
-- value it had, and the size is one less exactly if the key was there.
pub hashmap_remove-Removed :
    (hm : HashMap) (key : Key) → IsTable hm → Removed hm key (hashmap_remove hm key)
unfolding hashmap_remove
hashmap_remove-Removed hm key ok =
    let bucket = hm.buckets (hash key) in
    let w = unlink-Unlinked key bucket (ok.distinct (hash key)) in
    elim (Option-cases (unlink key bucket)) [
      | inl e ↦
          let absent = subst (Unlinked key bucket) e w in
          rw (hashmap_remove, e)
            (sym (contains-find hm key none absent), get-absent hm key absent, refl, ok)
      | inr (bucket', e) ↦
          let (f, l, d, (u, there)) = subst (Unlinked key bucket) e w in
          let t = total-update hm_buckets (hash key) hm.buckets bucket' (hash-bound key) in
          let c = ok.counted in
          rw (hashmap_remove, e)
            (
              sym (contains-find hm key (some u) there),
              get-with_bucket hm key bucket' (hm.size - 1) none f,
              omega (arith, t, c, l),
              IsTable-with_bucket hm key bucket' (hm.size - 1) ok d (omega (arith, t, c, l)),
            )
    ]

pub new_hashmap-IsTable : IsTable new_hashmap
unfolding total
new_hashmap-IsTable = record { distinct = λ _. tt; counted = refl }
