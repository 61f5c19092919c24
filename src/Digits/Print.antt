-- ===== src/Digits/Print.antt =====
-- What ui2a prints reads back as the number, and its loops end.
use native.Mathlib.Nat
use mathlib.Core.Path.{subst}
use choochoo_os.Base.{
  ℕ, zero, suc, ◌+◌, ◌*◌, ◌/◌, ◌%◌, ◌^◌, ◌≤◌, ◌<◌, ◌≡◌, refl, ◌⊎◌, inl, inr, ap, sym, ◌∙◌, Bool,
  true, false, ◌||◌, Bool-cases, Option, none, some, ltb, ◌==◌, if◌then◌else◌, List, [], ◌∷◌, arith,
}
use choochoo_os.Base.Int.{pos, negsuc}
use choochoo_os.Digits.{a2d, digit, print_digits, ui2a}
use choochoo_os.Digits.Scale.{Place, ones, next, Place-positive, scale-Scaled}

-- A text read as a number in a base, by the values that a2d gives its characters.
unfoldable pub read : ℕ → ℕ → List ℕ → Option ℕ
read base acc [] = some acc
read base acc (c ∷ text) = elim (a2d c) [
  | negsuc _ ↦ none
  | pos v ↦ if ltb v base then read base (acc * base + v) text else none
]

a2d-digit : (dgt : ℕ) → dgt < 16 → a2d (digit dgt) ≡ pos dgt
a2d-digit dgt lt = ground arith

abbrev is_shown : ℕ → ℕ → ℕ → Bool → Bool
is_shown num base d n = n || (ltb 0 (num / d) || d / base == 0)

-- One round of the second loop.
print_digits-round :
    (fuel num base d : ℕ) (n : Bool) (text : List ℕ)
    → 0 < d
    → print_digits fuel (num % d) base (d / base) (is_shown num base d n) ≡ some text
    → print_digits (suc fuel) num base d n
      ≡ some (if is_shown num base d n then digit (num / d) ∷ text else text)
unfolding print_digits
print_digits-round fuel num base d n text h e =
    let positive : (d == 0) ≡ false = ground arith in rw (print_digits, e, positive) refl

print_digits-end : (fuel num base : ℕ) (n : Bool) → print_digits (suc fuel) num base 0 n ≡ some []
unfolding print_digits
print_digits-end fuel num base n = refl

-- A printed digit is read as its value.
read-digit :
    (base acc dgt : ℕ) (text : List ℕ)
    → base ≤ 16
    → dgt < base
    → read base acc (digit dgt ∷ text) ≡ read base (acc * base + dgt) text
unfolding read
read-digit base acc dgt text high lt =
    let e = a2d-digit dgt (omega (arith, lt, high)) in
    let l : ltb dgt base ≡ true = ground arith in rw (read, e, l) refl

read-end : (base acc : ℕ) → read base acc [] ≡ some acc
unfolding read
read-end base acc = refl

shown_last : (n b : Bool) → (n || (b || 0 == 0)) ≡ true
shown_last n b = ground arith

place-sum :
    (acc base dgt place left num : ℕ)
    → place * dgt + left ≡ num
    → (acc * base + dgt) * place + left ≡ acc * (place * base) + num
place-sum acc base dgt place left num e =
    let a = Nat.add-mul (acc * base) dgt place in
    let b = Nat.mul_assoc acc base place in
    let c = ap (λ x. acc * x) (Nat.mul_comm base place) in
    let d = Nat.mul_comm dgt place in omega (arith, a, b, c, d, e)

place-zero :
    (acc base dgt place left num : ℕ)
    → acc ≡ 0
    → dgt ≡ 0
    → place * dgt + left ≡ num
    → acc * place + left ≡ acc * (place * base) + num
place-zero acc base dgt place left num z d e =
    let a = ap (λ x. x * place) z in
    let b = ap (λ x. x * (place * base)) z in
    let c = ap (λ x. place * x) d in
    let zeros = Nat.mul-zero place in omega (arith, a, b, c, e, zeros)

hidden_zero :
    (n : Bool) (dgt : ℕ) (b : Bool) → (n || (ltb 0 dgt || b)) ≡ false → (n ≡ false) × (dgt ≡ 0)
hidden_zero n dgt b h = ground arith

not_started : (n : Bool) (acc : ℕ) → n ≡ false → (n ≡ true) ⊎ (acc ≡ 0) → acc ≡ 0
not_started n acc e h = ground arith

module _ (base : ℕ) (low : 2 ≤ base) (high : base ≤ 16) where
  -- A text that continues a number read so far by the digits of another, from the place `d` down.
  abbrev Continues : ℕ → ℕ → ℕ → Option (List ℕ) → Type 0
  Continues acc d num out =
      (text : List ℕ) × (out ≡ some text) × (read base acc text ≡ some (acc * (d * base) + num))

  print-ones :
      (fuel num acc : ℕ) (n : Bool)
      → num < base
      → Continues acc 1 num (print_digits (suc (suc fuel)) num base 1 n)
  print-ones fuel num acc n lt =
      let none_below : 1 / base ≡ 0 = Nat.div-eq_of_lt (omega (arith, low)) in
      let whole : num / 1 ≡ num = Nat.div-one num in
      let shown : is_shown num base 1 n ≡ true = rw none_below (shown_last n (ltb 0 (num / 1))) in
      let rest = print_digits-end fuel (num % 1) base (is_shown num base 1 n) in
      let e = print_digits-round (suc fuel) num base 1 n [] (omega arith) (
        subst (λ k. print_digits (suc fuel) (num % 1) base k (is_shown num base 1 n) ≡ some [])
          (sym none_below) rest) in
      (
        digit num ∷ [],
        e ∙ rw (shown, whole) refl,
        read-digit base acc num [] high lt
            ∙ read-end base (acc * base + num)
            ∙ ap some (omega arith),
      )

  print-next :
      (fuel d num acc : ℕ) (n : Bool)
      → 0 < d
      → num < d * base * base
      → (n ≡ true) ⊎ (acc ≡ 0)
      → ((num acc : ℕ) (n : Bool)
          → num < d * base
          → (n ≡ true) ⊎ (acc ≡ 0)
          → Continues acc d num (print_digits (suc fuel) num base d n))
      → Continues acc (d * base) num (print_digits (suc (suc fuel)) num base (d * base) n)
  print-next fuel d num acc n h lt start rest =
      let place = d * base in
      let above : 0 < place = Nat.mul-pos h (omega (arith, low)) in
      let dgt = num / place in
      let left = num % place in
      let split : place * dgt + left ≡ num = Nat.div-add-mod num place in
      let dgt_low : dgt < base =
        (Nat.div-lt_iff_lt-mul {x = num} {y = base} above).1
          (omega (arith, lt, Nat.mul_comm base place)) in
      let left_low : left < place = Nat.mod-lt num above in
      let down : place / base ≡ d = Nat.mul-div_cancel d (omega (arith, low)) in
      elim (Bool-cases (is_shown num base place n)) [
        | inl shown ↦
            let (text, e, r) = rest left (acc * base + dgt) true left_low (inl refl) in
            let e0 =
              ap (λ k. print_digits (suc fuel) left base k (is_shown num base place n)) down
              ∙ ap (λ b. print_digits (suc fuel) left base d b) shown
              ∙ e in
            (
              digit dgt ∷ text,
              print_digits-round (suc fuel) num base place n text above e0
                  ∙ ap (λ b. some (if b then digit dgt ∷ text else text)) shown,
              read-digit base acc dgt text high dgt_low
                  ∙ r
                  ∙ ap some (place-sum acc base dgt place left num split),
            )
        | inr hidden ↦
            let (n_false, no_digit) = hidden_zero n dgt (place / base == 0) hidden in
            let (text, e, r) = rest left acc n left_low start in
            let e0 =
              ap (λ k. print_digits (suc fuel) left base k (is_shown num base place n)) down
              ∙ ap (λ b. print_digits (suc fuel) left base d b) (hidden ∙ sym n_false)
              ∙ e in
            (
              text,
              print_digits-round (suc fuel) num base place n text above e0
                  ∙ ap (λ b. some (if b then digit dgt ∷ text else text)) hidden,
              r
                  ∙ ap some (
                      place-zero acc base dgt place left num (not_started n acc n_false start)
                        no_digit split),
            )
      ]

  print_digits-Continues :
      (fuel d num acc : ℕ) (n : Bool)
      → Place base d
      → d < 2 ^ fuel
      → num < d * base
      → (n ≡ true) ⊎ (acc ≡ 0)
      → Continues acc d num (print_digits (suc fuel) num base d n)
  print_digits-Continues zero d num acc n p lt l start =
      absurd (omega (arith, lt, Place-positive base d low p))
  print_digits-Continues (suc fuel) d num acc n ones lt l start =
      print-ones fuel num acc n (omega (arith, l))
  print_digits-Continues (suc fuel) d num acc n (next {d = e} p) lt l start =
      let half : e < 2 ^ fuel =
        let a = Nat.mul-le-mul_left e low in
        let b = Nat.pow-succ' 2 fuel in omega (arith, a, b, lt) in
      print-next fuel e num acc n (Place-positive base e low p) l start
        (λ num acc n l start. print_digits-Continues fuel e num acc n p half l start)

-- For every number of 32 bits and every base from 2 to 16 both loops of ui2a end, and the text that it
-- writes, read digit by digit with a2d in that base, is the number again.
pub read-ui2a :
    (num base : ℕ)
    → 2 ≤ base
    → base ≤ 16
    → num < 2 ^ 32
    → (text : List ℕ) × (ui2a num base ≡ some text) × (read base 0 text ≡ some num)
unfolding ui2a
read-ui2a num base low high room =
    let (k, e, p, l, b) = scale-Scaled num base low room 33 1 ones (omega (arith, room)) in
    let small : k < 2 ^ 33 = elim b [ inl x ↦ omega (arith, x, room) | inr x ↦ omega (arith, x) ] in
    let (text, t, r) = print_digits-Continues base low high 33 k num 0 false p small l (inr refl) in
    let nothing = Nat.zero-mul (k * base) in
    (text, rw (ui2a, e) t, r ∙ ap some (omega (arith, nothing)))
