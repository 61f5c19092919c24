-- ===== src/Command/Numerals.antt =====
-- lib/command_parser.c: reading the numbers and words that stand behind single spaces.
use choochoo_os.Base.{
  ℕ, ◌+◌, ◌-◌, ◌*◌, ◌%◌, ◌^◌, ◌≤◌, ◌<◌, ◌≡◌, refl, ap, ◌∙◌, ◌≢◌, true, some, List, [], ◌∷◌, ◌++◌,
  length, All, is_digit, is_alnum, arith,
}
use choochoo_os.Digits.Print.{read}
use choochoo_os.Text.{max_string_len}
use choochoo_os.Command.{get_i}

-- Nothing follows, or a space.
abbrev pub Ends : List ℕ → Type 0
Ends [] = Unit
Ends (c ∷ cs) = c ≡ 32

-- A text of digits that reads as the number, with zeros in front or without.
abbrev pub Numeral : ℕ → List ℕ → Type 0
Numeral n text = (text ≢ []) × (read 10 0 text ≡ some n) × (n < 2 ^ 32)

-- A word of letters and digits that a string holds.
abbrev pub IsWord : List ℕ → Type 0
IsWord w = (w ≢ []) × All (λ c. is_alnum c ≡ true) w × (length w ≤ max_string_len)

pub some_inj : {a b : ℕ} → some a ≡ some b → a ≡ b
some_inj h = ground arith

-- One more digit in front of a text.
pub read_digit :
    (acc c v : ℕ) (text : List ℕ)
    → read 10 acc (c ∷ text) ≡ some v
    → (is_digit c ≡ true) × (read 10 (acc * 10 + (c - 48)) text ≡ some v)
unfolding read is_digit
read_digit acc c v text h = ground arith

read_grows : (acc v : ℕ) (text : List ℕ) → read 10 acc text ≡ some v → acc ≤ v
unfolding read
read_grows acc v [] h = omega (arith, some_inj h)
read_grows acc v (c ∷ text) h =
    let next = read_digit acc c v text h in
    omega (arith, read_grows (acc * 10 + (c - 48)) v text next.1)

get_i_end : (n : ℕ) (rest : List ℕ) → Ends rest → get_i n rest ≡ (n, rest)
unfolding get_i is_digit
get_i_end n [] h = refl
get_i_end n (c ∷ cs) h = ground arith

get_i_digit :
    (n c : ℕ) (cs : List ℕ)
    → is_digit c ≡ true
    → get_i n (c ∷ cs) ≡ get_i ((n * 10 + (c - 48)) % 2 ^ 32) cs
unfolding get_i
get_i_digit n c cs h = rw h

pub get_i-read :
    (acc v : ℕ) (text rest : List ℕ)
    → read 10 acc text ≡ some v
    → v < 2 ^ 32
    → Ends rest
    → get_i acc (text ++ rest) ≡ (v, rest)
unfolding read
get_i-read acc v [] rest h l e = ap (λ n. get_i n rest) (some_inj h) ∙ get_i_end v rest e
get_i-read acc v (c ∷ text) rest h l e =
    let next = read_digit acc c v text h in
    let fits : (acc * 10 + (c - 48)) % 2 ^ 32 ≡ acc * 10 + (c - 48) =
      omega (arith, read_grows (acc * 10 + (c - 48)) v text next.1) in
    get_i_digit acc c (text ++ rest) next.0
    ∙ ap (λ n. get_i n (text ++ rest)) fits
    ∙ get_i-read (acc * 10 + (c - 48)) v text rest next.1 l e
