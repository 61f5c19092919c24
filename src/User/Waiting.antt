-- ===== src/User/Waiting.antt =====
-- The lists of waiting requests that the servers walk with an iterator.
use choochoo_os.Base.{
  ℕ, ◌+◌, ◌≡◌, ap, refl, inl, inr, Bool, true, false, Bool-cases, Option, none, some, List, [], ◌∷◌,
  ◌++◌, All, if◌then◌else◌, arith,
}

module _ {A : Type 0} where
  -- The walk that removes the first item to pass the test, and stops there.
  unfoldable pub take_first : (A → Bool) → List A → Option (A × List A)
  take_first p [] = none
  take_first p (x ∷ xs) =
      let rest = take_first p xs in
      if p x then some (x, xs) else elim rest [ none ↦ none | some (y, ys) ↦ some (y, x ∷ ys) ]

  -- The walk that removes every item that passes the test: those removed, and those that stay.
  unfoldable pub take_all : (A → Bool) → List A → List A × List A
  take_all p [] = ([], [])
  take_all p (x ∷ xs) =
      let (out, stay) = take_all p xs in if p x then (x ∷ out, stay) else (out, x ∷ stay)

  -- What a walk for the first finds: an item with none before it that passes.
  abbrev pub FirstOf : (A → Bool) → List A → Option (A × List A) → Type 0
  FirstOf p xs none = All (λ x. p x ≡ false) xs
  FirstOf p xs (some (y, ys)) =
      (before : List A) × (after : List A) × (xs ≡ before ++ y ∷ after)
      × (ys ≡ before ++ after)
      × All (λ x. p x ≡ false) before
      × (p y ≡ true)

  FirstOf-cons :
      (p : A → Bool) (x : A) (xs : List A) (r : Option (A × List A))
      → p x ≡ false
      → FirstOf p xs r
      → FirstOf p (x ∷ xs) (elim r [ none ↦ none | some (y, ys) ↦ some (y, x ∷ ys) ])
  FirstOf-cons p x xs none e h = (e, h)
  FirstOf-cons p x xs (some (y, ys)) e (before, after, a, b, c, d) =
      (x ∷ before, after, ap (λ l. x ∷ l) a, ap (λ l. x ∷ l) b, (e, c), d)

  pub take_first-FirstOf : (p : A → Bool) (xs : List A) → FirstOf p xs (take_first p xs)
  unfolding take_first
  take_first-FirstOf p [] = tt
  take_first-FirstOf p (x ∷ xs) = elim (Bool-cases (p x)) [
    | inl e ↦ rw e ([], xs, refl, refl, tt, e)
    | inr e ↦ rw e (FirstOf-cons p x xs (take_first p xs) e (take_first-FirstOf p xs))
  ]

  -- How many items pass a test.
  abbrev pub count : (A → Bool) → List A → ℕ
  count g [] = 0
  count g (x ∷ xs) = (if g x then 1 else 0) + count g xs

  -- A walk that removes: the removed pass, the others do not, and each item is on one side as often as
  -- it was in the list, by whatever test one counts.
  abbrev pub Parted : (A → Bool) → List A → List A × List A → Type 0
  Parted p xs r =
      All (λ x. p x ≡ true) r.0
      × All (λ x. p x ≡ false) r.1
      × ((g : A → Bool) → count g xs ≡ count g r.0 + count g r.1)

  pub take_all-Parted : (p : A → Bool) (xs : List A) → Parted p xs (take_all p xs)
  unfolding take_all
  take_all-Parted p [] = (tt, tt, λ g. refl)
  take_all-Parted p (x ∷ xs) =
      let (a, b, c) = take_all-Parted p xs in
      elim (Bool-cases (p x)) [
        | inl e ↦ rw e ((e, a), b, λ g. let n = c g in omega arith)
        | inr e ↦ rw e (a, (e, b), λ g. let n = c g in omega arith)
      ]

  -- The walk stops at the first item that passes.
  pub take_first-append :
      (p : A → Bool) (before : List A) (y : A) (after : List A)
      → All (λ x. p x ≡ false) before
      → p y ≡ true
      → take_first p (before ++ y ∷ after) ≡ some (y, before ++ after)
  unfolding take_first
  take_first-append p [] y after h e = rw e refl
  take_first-append p (x ∷ before) y after h e =
      rw (h.0, take_first-append p before y after h.1 e) refl
