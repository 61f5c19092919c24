-- ===== src/User/TrainData/ShortMove/Rising.antt =====
-- user/traindata/train_data.c: the loop of train_data_short_move_time over one row of the table.
use native.Mathlib.Nat.{le_trans, div-mul-le_self, le-div_iff_mul-le, div-le_self}
use choochoo_os.Base.{
  ℕ, zero, suc, ◌+◌, ◌-◌, ◌*◌, ◌/◌, ◌%◌, ◌^◌, ◌≤◌, ◌<◌, ◌≡◌, refl, ap, ◌∙◌, sym, inl, inr, Bool,
  true, false, Bool-cases, ◌==◌, ltb, ltb→lt, ltb→le, le→ltb, leb, Option, none, some, List, [],
  ◌∷◌, All, arith,
}
use choochoo_os.User.TrainData.Measured.{train_data_short_move_time_increment}
use choochoo_os.User.TrainData.{short_move_from}

-- The longest distance whose time does not wrap around.
abbrev pub longest : ℕ
longest = 17000000

div_mono : (a b c : ℕ) → 0 < c → a ≤ b → a / c ≤ b / c
div_mono a b c p h = (le-div_iff_mul-le p).1 (le_trans (div-mul-le_self a c) h)

-- The loop goes through when the distance is above every entry.
unfoldable pub ends : ℕ → Option ℕ → Option ℕ → List ℕ → ℕ → Option ℕ
unfolding short_move_from
ends i before prev [] d = short_move_from i before prev d []
ends i before prev (x ∷ xs) d = ends (suc i) prev (some x) xs d

pub past :
    (i : ℕ) (before prev : Option ℕ) (d : ℕ) (xs : List ℕ)
    → All (λ x. x < d) xs
    → short_move_from i before prev d xs ≡ ends i before prev xs d
unfolding short_move_from ends
past i before prev d [] h = refl
past i before prev d (x ∷ xs) h =
    rw (step x h.0, le→ltb d x (below_it x h.0)) (past (suc i) prev (some x) d xs h.1)
  where
    step : (a : ℕ) → a < d → (a == d) ≡ false
    step a l = ground arith

    below_it : (a : ℕ) → a < d → a ≤ d
    below_it a l = omega arith

unfoldable pub tail : ℕ → ℕ → ℕ → ℕ
tail penultimate last d =
    (train_data_short_move_time_increment * 16
      + train_data_short_move_time_increment * (d - last) % 2 ^ 32 / (last - penultimate))
    % 2 ^ 32

tail_mono : (p l d : ℕ) → 0 < l - p → suc d ≤ longest → tail p l d ≤ tail p l (suc d)
unfolding tail
tail_mono p l d h k = omega (
  arith,
  div_mono (250 * (d - l) % 2 ^ 32) (250 * (suc d - l) % 2 ^ 32) (l - p) h (omega arith),
  div-le_self (250 * (suc d - l) % 2 ^ 32) (l - p),
)

abbrev pub rises : Option ℕ → Option ℕ → Bool
rises (some a) (some b) = leb a b
rises _ _ = false

-- Both distances have a time, and the second no less.
abbrev pub Rises : Option ℕ → Option ℕ → Type 0
Rises a b = (x : ℕ) × (y : ℕ) × (a ≡ some x) × (b ≡ some y) × (x ≤ y)

rises→Rises : (a b : Option ℕ) → rises a b ≡ true → Rises a b
rises→Rises none none h = absurd (ground arith)
rises→Rises none (some b) h = absurd (ground arith)
rises→Rises (some a) none h = absurd (ground arith)
rises→Rises (some a) (some b) h = (a, b, refl, refl, ground arith)

-- The table of one train, whose last two entries are `p` and `l`.
module _ (row : List ℕ) (p l : ℕ) where
  abbrev pub at : ℕ → Option ℕ
  at d = short_move_from 0 none none d row

  abbrev pub measured : ℕ → Bool
  measured d = rises (at d) (at (suc d))

  pub Rises-suc :
      ((d : ℕ) → d < 1200 → measured d ≡ true)
      → ((d : ℕ) → 1200 ≤ d → at d ≡ some (tail p l d))
      → 0 < l - p
      → (d : ℕ) → d < longest
      → Rises (at d) (at (suc d))
  Rises-suc low high q d h = elim (Bool-cases (ltb d 1200)) [
    | inl e ↦ rises→Rises (at d) (at (suc d)) (low d (ltb→lt d 1200 e))
    | inr e ↦
        let far = ltb→le d 1200 e in
        (
          tail p l d,
          tail p l (suc d),
          high d far,
          high (suc d) (omega arith),
          tail_mono p l d q (omega arith),
        )
  ]

  pub Rises-add :
      ((d : ℕ) → d < longest → Rises (at d) (at (suc d)))
      → (d k : ℕ) → d + k < longest
      → Rises (at d) (at (d + k))
  Rises-add step d zero h =
      let r = step d (omega arith) in (r.0, r.0, r.2, ap at add_zero ∙ r.2, omega arith)
    where
      add_zero : d + 0 ≡ d
      add_zero = omega arith
  Rises-add step d (suc k) h =
      let near = Rises-add step d k (omega arith) in
      let far = step (d + k) (omega arith) in
      (
        near.0,
        far.1,
        near.2,
        ap at next ∙ far.3,
        le_trans near.4 (rw (some_eq (sym near.3 ∙ far.2)) far.4),
      )
    where
      next : d + suc k ≡ suc (d + k)
      next = omega arith

      some_eq : {a b : ℕ} → some a ≡ some b → a ≡ b
      some_eq e = ground arith
