-- ===== src/Digits/Scale.antt =====
-- The first loop of ui2a ends at the place of the first digit.
use native.Mathlib.Nat
use choochoo_os.Base.{
  ℕ, zero, suc, ◌*◌, ◌/◌, ◌%◌, ◌^◌, ◌≤◌, ◌<◌, ◌≡◌, refl, ◌⊎◌, inl, inr, ap, false, Bool-cases,
  Option, some, leb, arith,
}
use choochoo_os.Digits.{scale}

-- The places that the loops go through: the powers of the base.
pub data Place (base : ℕ) : ℕ → Type 0 where
  ones : Place base 1
  next : {d : ℕ} → Place base d → Place base (d * base)

pub Place-positive : (base d : ℕ) → 2 ≤ base → Place base d → 0 < d
Place-positive base d low ones = omega arith
Place-positive base d low (next {d = e} p) =
    let h = Place-positive base e low p in Nat.mul-pos h (omega arith)

-- A step of the first loop: the next place is at most the number, and half the doublings are left.
step-room : (num base d : ℕ) → base ≤ num / d → d * base ≤ num
step-room num base d h =
    let a = Nat.mul-le-mul_left d h in let b = Nat.mul-div-le num d in omega (arith, a, b)

step-fuel : (num base d fuel : ℕ) → 2 ≤ base → num < d * 2 ^ suc fuel → num < d * base * 2 ^ fuel
step-fuel num base d fuel low lt =
    let e = Nat.pow-succ' 2 fuel in
    let a = Nat.mul-le-mul_right (2 ^ fuel) (Nat.mul-le-mul_left d low) in
    let b = Nat.mul_assoc d 2 (2 ^ fuel) in let c = ap (λ x. d * x) e in omega (arith, a, b, c, lt)

last-step : (num base d : ℕ) → 0 < d → num / d < base → num < d * base
last-step num base d h lt =
    let a = (Nat.div-lt_iff_lt-mul {x = num} {y = base} h).0 lt in
    let b = Nat.mul_comm base d in omega (arith, a, b)

module _ (num base : ℕ) (low : 2 ≤ base) (room : num < 2 ^ 32) where
  -- What the first loop finds: a place at which the number has its first digit.
  abbrev pub Scaled : ℕ → Option ℕ → Type 0
  Scaled d found =
      (k : ℕ) × (found ≡ some k) × Place base k × (num < k * base) × ((k ≤ num) ⊎ (k ≡ d))

  Scaled-stop : (d : ℕ) → Place base d → leb base (num / d) ≡ false → Scaled d (some d)
  Scaled-stop d p e =
      let h : num / d < base = ground arith in
      (d, refl, p, last-step num base d (Place-positive base d low p) h, inr refl)

  Scaled-next :
      (d : ℕ) (found : Option ℕ) → d * base ≤ num → Scaled (d * base) found → Scaled d found
  Scaled-next d found below (k, e, q, l, b) =
      (k, e, q, l, elim b [ inl x ↦ inl x | inr x ↦ inl (omega (arith, x, below)) ])

  pub scale-Scaled :
      (fuel d : ℕ) → Place base d → num < d * 2 ^ fuel → Scaled d (scale (suc fuel) num base d)
  unfolding scale
  scale-Scaled zero d p lt = elim (Bool-cases (leb base (num / d))) [
    | inr e ↦ rw (scale, e) (Scaled-stop d p e)
    | inl e ↦
        let below = step-room num base d (ground arith) in
        let more = Nat.mul-le-mul_left d low in
        absurd (omega (arith, below, more, lt, Place-positive base d low p))
  ]
  scale-Scaled (suc fuel) d p lt = elim (Bool-cases (leb base (num / d))) [
    | inr e ↦ rw (scale, e) (Scaled-stop d p e)
    | inl e ↦
        let below = step-room num base d (ground arith) in
        let same : (d * base) % 2 ^ 32 ≡ d * base = omega (arith, below, room) in
        rw (scale, e, same)
          (Scaled-next d _ below
            (scale-Scaled fuel (d * base) (next p) (step-fuel num base d fuel low lt)))
  ]
