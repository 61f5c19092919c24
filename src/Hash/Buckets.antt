-- ===== src/Hash/Buckets.antt =====
-- One chain of the table: a map from keys, each key at most once.
use choochoo_os.Base.{
  ℕ, suc, ◌≡◌, refl, inl, inr, ap, sym, ◌∙◌, true, false, Bool-cases, Option, none, some, ==_refl,
  if◌then◌else◌, List, [], ◌∷◌, ◌++◌, length, arith,
}
use choochoo_os.Hash.{Key, HashMapNode, eq_key, find, set_value, unlink}

pub eq_key→eq : (a b : Key) → eq_key a b ≡ true → a ≡ b
eq_key→eq [] [] h = refl
eq_key→eq [] (y ∷ b) h = ground arith
eq_key→eq (x ∷ a) [] h = ground arith
eq_key→eq (x ∷ a) (y ∷ b) h = ground (arith, eq_key→eq a b)

pub eq_key_refl : (a : Key) → eq_key a a ≡ true
eq_key_refl [] = refl
eq_key_refl (x ∷ a) = rw (==_refl x, eq_key_refl a) refl

-- Two keys that differ do not both equal a third.
eq_key_apart : (a b j : Key) → eq_key a b ≡ false → eq_key b j ≡ true → eq_key a j ≡ false
eq_key_apart a b j ne e = rw (← eq_key→eq b j e) ne

eq_key_ne_comm : (a b : Key) → eq_key a b ≡ false → eq_key b a ≡ false
eq_key_ne_comm a b e = elim (Bool-cases (eq_key b a)) [
  | inl l ↦ l ∙ sym (eq_key_refl a) ∙ ap (eq_key a) (sym (eq_key→eq b a l)) ∙ e
  | inr l ↦ l
]

not_both : (a b j : Key) → eq_key a b ≡ false → eq_key a j ≡ true → eq_key b j ≡ false
not_both a b j e k = elim (Bool-cases (eq_key b j)) [
  | inl l ↦ l ∙ sym k ∙ eq_key_apart a b j e l
  | inr l ↦ l
]

-- The chain with a value at a key: set where the key is, at the end otherwise.
unfoldable pub put : Key → ℕ → List HashMapNode → List HashMapNode
put key v [] = record { key = key; value = v } ∷ []
put key v (n ∷ ns) =
    let rest = put key v ns in if eq_key n.key key then record n { value = v } ∷ ns else n ∷ rest

module _ (key : Key) (n : HashMapNode) (ns : List HashMapNode) where
  pub find-hit : eq_key n.key key ≡ true → find key (n ∷ ns) ≡ some n.value
  unfolding find
  find-hit e = rw e refl

  pub find-miss : eq_key n.key key ≡ false → find key (n ∷ ns) ≡ find key ns
  unfolding find
  find-miss e = rw e refl

  put-hit : (v : ℕ) → eq_key n.key key ≡ true → put key v (n ∷ ns) ≡ record n { value = v } ∷ ns
  unfolding put
  put-hit v e = rw e refl

  put-miss : (v : ℕ) → eq_key n.key key ≡ false → put key v (n ∷ ns) ≡ n ∷ put key v ns
  unfolding put
  put-miss v e = rw e refl

-- Each key stands at most once.
abbrev pub Distinct : List HashMapNode → Type 0
Distinct [] = Unit
Distinct (n ∷ ns) = (find n.key ns ≡ none) × Distinct ns

module _ (key : Key) (v : ℕ) where
  -- What the walk of an insertion finds.
  abbrev pub Walked : List HashMapNode → Option (List HashMapNode) → Type 0
  Walked ns none =
      (find key ns ≡ none) × (put key v ns ≡ ns ++ record { key = key; value = v } ∷ [])
  Walked ns (some ns') =
      (ns' ≡ put key v ns) × (length ns' ≡ length ns) × ((u : ℕ) × (find key ns ≡ some u))

  Walked-cons :
      (n : HashMapNode) (ns : List HashMapNode) (r : Option (List HashMapNode))
      → eq_key n.key key ≡ false
      → Walked ns r
      → Walked (n ∷ ns) (elim r [ none ↦ none | some ns' ↦ some (n ∷ ns') ])
  Walked-cons n ns none e h =
      (find-miss key n ns e ∙ h.0, put-miss key n ns v e ∙ ap (λ l. n ∷ l) h.1)
  Walked-cons n ns (some ns') e h = (
    ap (λ l. n ∷ l) h.0 ∙ sym (put-miss key n ns v e),
    ap suc h.1,
    (h.2.0, find-miss key n ns e ∙ h.2.1),
  )

  pub set_value-Walked : (ns : List HashMapNode) → Walked ns (set_value key v ns)
  unfolding set_value find put
  set_value-Walked [] = (refl, refl)
  set_value-Walked (n ∷ ns) = elim (Bool-cases (eq_key n.key key)) [
    | inl e ↦ rw (set_value, e) (sym (put-hit key n ns v e), refl, (n.value, find-hit key n ns e))
    | inr e ↦ rw (set_value, e) (Walked-cons n ns (set_value key v ns) e (set_value-Walked ns))
  ]

  find-put_hit :
      (j : Key) (n : HashMapNode) (ns : List HashMapNode)
      → eq_key n.key key ≡ true
      → find j (put key v (n ∷ ns)) ≡ (if eq_key key j then some v else find j (n ∷ ns))
  find-put_hit j n ns e =
      let same = ap (λ k. eq_key k j) (eq_key→eq n.key key e) in
      elim (Bool-cases (eq_key key j)) [
        | inl k ↦ rw (put-hit key n ns v e, k) (find-hit j (record n { value = v }) ns (same ∙ k))
        | inr k ↦
            rw (put-hit key n ns v e, k)
              (find-miss j (record n { value = v }) ns (same ∙ k)
                ∙ sym (find-miss j n ns (same ∙ k)))
      ]

  find-put_miss :
      (j : Key) (n : HashMapNode) (ns : List HashMapNode)
      → eq_key n.key key ≡ false
      → find j (put key v ns) ≡ (if eq_key key j then some v else find j ns)
      → find j (put key v (n ∷ ns)) ≡ (if eq_key key j then some v else find j (n ∷ ns))
  find-put_miss j n ns e h =
      let step = ap (find j) (put-miss key n ns v e) in
      step ∙ elim (Bool-cases (eq_key n.key j)) [
        | inl k ↦
            rw (find-hit j n (put key v ns) k, find-hit j n ns k, not_both n.key key j e k) refl
        | inr k ↦ rw (find-miss j n (put key v ns) k, find-miss j n ns k) h
      ]

  pub find-put :
      (j : Key) (ns : List HashMapNode)
      → find j (put key v ns) ≡ (if eq_key key j then some v else find j ns)
  unfolding put find
  find-put j [] = refl
  find-put j (n ∷ ns) = elim (Bool-cases (eq_key n.key key)) [
    | inl e ↦ find-put_hit j n ns e
    | inr e ↦ find-put_miss j n ns e (find-put j ns)
  ]

  pub Distinct-put : (ns : List HashMapNode) → Distinct ns → Distinct (put key v ns)
  unfolding put find
  Distinct-put [] d = (refl, tt)
  Distinct-put (n ∷ ns) d = elim (Bool-cases (eq_key n.key key)) [
    | inl e ↦ rw (put-hit key n ns v e) d
    | inr e ↦
        rw (put-miss key n ns v e)
          (find-put n.key ns ∙ rw (eq_key_ne_comm n.key key e) d.0, Distinct-put ns d.1)
  ]

module _ (key : Key) where
  -- What the walk of a removal finds: no node with the key, or a chain that differs at the key only.
  abbrev pub Unlinked : List HashMapNode → Option (List HashMapNode) → Type 0
  Unlinked ns none = find key ns ≡ none
  Unlinked ns (some ns') =
      ((j : Key) → find j ns' ≡ (if eq_key key j then none else find j ns))
      × (length ns ≡ suc (length ns'))
      × Distinct ns'
      × ((v : ℕ) × (find key ns ≡ some v))

  Unlinked-cons :
      (n : HashMapNode) (ns : List HashMapNode) (r : Option (List HashMapNode))
      → eq_key n.key key ≡ false
      → Distinct (n ∷ ns)
      → Unlinked ns r
      → Unlinked (n ∷ ns) (elim r [ none ↦ none | some ns' ↦ some (n ∷ ns') ])
  Unlinked-cons n ns none e d h = find-miss key n ns e ∙ h
  Unlinked-cons n ns (some ns') e d (f, l, d', (v, hv)) = (
    looked,
    ap suc l,
    (f n.key ∙ rw (eq_key_ne_comm n.key key e) d.0, d'),
    (v, find-miss key n ns e ∙ hv),
  )
    where
      looked : (j : Key) → find j (n ∷ ns') ≡ (if eq_key key j then none else find j (n ∷ ns))
      looked j = elim (Bool-cases (eq_key n.key j)) [
        | inl k ↦ rw (find-hit j n ns' k, find-hit j n ns k, not_both n.key key j e k) refl
        | inr k ↦ rw (find-miss j n ns' k, find-miss j n ns k) (f j)
      ]

  Unlinked-here :
      (n : HashMapNode) (ns : List HashMapNode)
      → eq_key n.key key ≡ true
      → Distinct (n ∷ ns)
      → Unlinked (n ∷ ns) (some ns)
  Unlinked-here n ns e d = (looked, refl, d.1, (n.value, find-hit key n ns e))
    where
      looked : (j : Key) → find j ns ≡ (if eq_key key j then none else find j (n ∷ ns))
      looked j = elim (Bool-cases (eq_key key j)) [
        | inl k ↦ rw k (ap (λ i. find i ns) (sym (eq_key→eq n.key key e ∙ eq_key→eq key j k)) ∙ d.0)
        | inr k ↦ rw k (sym (find-miss j n ns (ap (λ i. eq_key i j) (eq_key→eq n.key key e) ∙ k)))
      ]

  pub unlink-Unlinked : (ns : List HashMapNode) → Distinct ns → Unlinked ns (unlink key ns)
  unfolding unlink find
  unlink-Unlinked [] d = refl
  unlink-Unlinked (n ∷ ns) d = elim (Bool-cases (eq_key n.key key)) [
    | inl e ↦ rw (unlink, e) (Unlinked-here n ns e d)
    | inr e ↦ rw (unlink, e) (Unlinked-cons n ns (unlink key ns) e d (unlink-Unlinked ns d.1))
  ]
