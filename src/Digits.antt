-- ===== src/Digits.antt =====
-- lib/util.c: numbers as text. A text is the list of its characters before the terminating 0.
pub mod Scale
pub mod Print
pub mod Clock
mod Tests
use choochoo_os.Base.{
  ℕ, zero, suc, ◌+◌, ◌-◌, ◌*◌, ◌/◌, ◌%◌, ◌^◌, Bool, true, false, ◌&&◌, ◌||◌, Option, none, some,
  ltb, leb, ◌==◌, if◌then◌else◌, List, [], ◌∷◌,
}
use choochoo_os.Base.Int.{ℤ, pos, negsuc}

-- The value of a digit in ASCII, -1 for another character.
abbrev pub a2d : ℕ → ℤ
a2d ch =
    if leb 48 ch && leb ch 57
    then pos (ch - 48)
    else if leb 97 ch && leb ch 102
    then pos (ch - 97 + 10)
    else if leb 65 ch && leb ch 70
    then pos (ch - 65 + 10)
    else negsuc 0

-- The first loop of ui2a: the largest power of the base to print, in 32 bits. `none` is fuel that ran out.
unfoldable pub scale : ℕ → ℕ → ℕ → ℕ → Option ℕ
scale zero num base d = none
scale (suc fuel) num base d =
    let rest = scale fuel num base ((d * base) % 2 ^ 32) in
    if leb base (num / d) then rest else some d

abbrev pub digit : ℕ → ℕ
digit dgt = dgt + (if ltb dgt 10 then 48 else 87)

-- The second loop: the digits from the place `d` down, without the zeros in front. `n` is whether a
-- digit has been printed.
unfoldable pub print_digits : ℕ → ℕ → ℕ → ℕ → Bool → Option (List ℕ)
print_digits zero num base d n = none
print_digits (suc fuel) num base d n =
    let dgt = num / d in
    let shown = n || (ltb 0 dgt || d / base == 0) in
    let rest = print_digits fuel (num % d) base (d / base) shown in
    if d == 0
    then some []
    else elim rest [ none ↦ none | some text ↦ some (if shown then digit dgt ∷ text else text) ]

abbrev loop_fuel : ℕ
loop_fuel = 34

unfoldable pub ui2a : ℕ → ℕ → Option (List ℕ)
ui2a num base = elim (scale loop_fuel num base 1) [
  | none ↦ none
  | some d ↦ print_digits loop_fuel num base d false
]

-- The negation of the least `int` is its own bit pattern.
unfoldable pub i2a : ℤ → Option (List ℕ)
i2a (pos num) = ui2a num 10
i2a (negsuc n) = elim (ui2a (n + 1) 10) [ none ↦ none | some text ↦ some (45 ∷ text) ]

-- The characters of `buffer`, the last of them 0.
abbrev pub format_clock : ℕ → List ℕ
format_clock time =
    let seconds = time / 10 % 60 in
    let minutes = time / 10 / 60 in
    let clamp = minutes / 10 in
    (if ltb 5 clamp then 54 else 48 + clamp)
    ∷ (if ltb 5 clamp then 48 else 48 + minutes % 10)
    ∷ 58
    ∷ (48 + seconds / 10)
    ∷ (48 + seconds % 10)
    ∷ 58
    ∷ (48 + time % 10)
    ∷ 0
    ∷ []
