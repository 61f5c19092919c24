-- ===== src/Command/Words.antt =====
-- lib/command_parser.c: the next number or word behind a space.
use choochoo_os.Base.{
  ℕ, suc, ◌+◌, ◌≤◌, ◌<◌, ◌^◌, ◌≡◌, refl, ap, ◌∙◌, sym, ◌≢◌, ◌⊎◌, inl, inr, true, false, leb, List,
  [], ◌∷◌, ◌++◌, length, All, is_digit, is_alnum, is_space, append-nil, ne→==, eq→==, not_both,
  arith,
}
use choochoo_os.Base.Int.{ℤ, pos, negsuc, to_int, to_u32}
use choochoo_os.Text.{max_string_len}
use choochoo_os.Command.{
  skip_whitespace, get_str, get_i, next_int, next_str, get_signed_number, negate,
}
use choochoo_os.Command.Numerals.{Ends, Numeral, IsWord, read_digit, get_i-read}

digit-not_space : (c : ℕ) → is_digit c ≡ true → is_space c ≡ false
unfolding is_digit is_space
digit-not_space c h = ground arith

alnum-not_space : (c : ℕ) → is_alnum c ≡ true → is_space c ≡ false
unfolding is_alnum is_space
alnum-not_space c h = ground arith

skip_one : (c : ℕ) (cs : List ℕ) → is_space c ≡ false → skip_whitespace (32 ∷ (c ∷ cs)) ≡ c ∷ cs
unfolding skip_whitespace is_space
skip_one c cs h = rw h

skip-Numeral :
    (n : ℕ) (a rest : List ℕ) → Numeral n a → skip_whitespace (32 ∷ (a ++ rest)) ≡ a ++ rest
skip-Numeral n [] rest h = absurd (h.0 refl)
skip-Numeral n (c ∷ cs) rest h =
    skip_one c (cs ++ rest) (digit-not_space c (read_digit 0 c n cs h.1).0)

skip_word : (w rest : List ℕ) → IsWord w → skip_whitespace (32 ∷ (w ++ rest)) ≡ w ++ rest
skip_word [] rest h = absurd (h.0 refl)
skip_word (c ∷ cs) rest h = skip_one c (cs ++ rest) (alnum-not_space c h.1.0)

pub next_int_lem :
    (n : ℕ) (a rest : List ℕ)
    → Numeral n a
    → Ends rest
    → next_int (32 ∷ (a ++ rest)) ≡ (to_int n, rest)
unfolding next_int
next_int_lem n a rest h e =
    ap (λ t. let (m, r) = get_i 0 t in (to_int m, r)) (skip-Numeral n a rest h)
    ∙ ap (λ p. (to_int p.0, p.1)) (get_i-read 0 n a rest h.1 h.2 e)

get_str_end : (len : ℕ) (rest : List ℕ) → Ends rest → get_str len rest ≡ ([], rest)
unfolding get_str is_alnum is_space
get_str_end len [] e = refl
get_str_end len (c ∷ cs) e = rw (ap is_alnum e, ap is_space e)

get_str_step :
    (len c : ℕ) (cs : List ℕ)
    → is_alnum c ≡ true
    → len < max_string_len
    → get_str len (c ∷ cs) ≡ (c ∷ (get_str (suc len) cs).0, (get_str (suc len) cs).1)
unfolding get_str
get_str_step len c cs h l = rw (h, fits)
  where
    fits : leb max_string_len len ≡ false
    fits = ground arith

pub get_str_word :
    (len : ℕ) (w rest : List ℕ)
    → All (λ c. is_alnum c ≡ true) w
    → len + length w ≤ max_string_len
    → Ends rest
    → get_str len (w ++ rest) ≡ (w, rest)
get_str_word len [] rest h l e = get_str_end len rest e
get_str_word len (c ∷ cs) rest h l e =
    get_str_step len c (cs ++ rest) h.0 (omega arith)
    ∙ ap (λ p. (c ∷ p.0, p.1)) (get_str_word (suc len) cs rest h.1 (omega arith) e)

pub next_str_lem :
    (w rest : List ℕ) → IsWord w → Ends rest → next_str (32 ∷ (w ++ rest)) ≡ (w, rest)
unfolding next_str
next_str_lem w rest h e =
    ap (get_str 0) (skip_word w rest h) ∙ get_str_word 0 w rest h.1 (omega (arith, h.2)) e

pub to_u32-to_int : (n : ℕ) → n < 2 ^ 32 → to_u32 (to_int n) ≡ n
to_u32-to_int n h = ground arith

-- An offset, with its sign or without.
abbrev pub Offset : ℤ → List ℕ → Type 0
Offset z [] = ⊥
Offset z (c ∷ cs) =
    ((c ≡ 43) × (n : ℕ) × Numeral n cs × (n < 2 ^ 31) × (z ≡ pos n))
    ⊎ ((c ≡ 45) × (n : ℕ) × Numeral (suc n) cs × (suc n ≤ 2 ^ 31) × (z ≡ negsuc n))
    ⊎ ((n : ℕ) × Numeral n (c ∷ cs) × (n < 2 ^ 31) × (z ≡ pos n))

Numeral-end : (n : ℕ) (text : List ℕ) → Numeral n text → (get_i 0 text).0 ≡ n
Numeral-end n text h =
    ap (λ t. (get_i 0 t).0) (sym (append-nil text))
    ∙ ap (λ p. p.0) (get_i-read 0 n text [] h.1 h.2 tt)

signed_plus :
    (c : ℕ) (cs : List ℕ) → c ≡ 43 → (get_signed_number (c ∷ cs)).0 ≡ to_int (get_i 0 cs).0
unfolding get_signed_number
signed_plus c cs h = rw (eq→== c 43 h)

signed_minus :
    (c : ℕ) (cs : List ℕ) → c ≡ 45 → (get_signed_number (c ∷ cs)).0 ≡ to_int (negate (get_i 0 cs).0)
unfolding get_signed_number
signed_minus c cs h = rw (ne→== c 43 (λ e. absurd (omega arith)), eq→== c 45 h)

signed_digit :
    (c : ℕ) (cs : List ℕ)
    → is_digit c ≡ true
    → (get_signed_number (c ∷ cs)).0 ≡ to_int (get_i 0 (c ∷ cs)).0
unfolding get_signed_number is_digit
signed_digit c cs h = rw (ne→== c 43 (no_sign 43 (refl)), ne→== c 45 (no_sign 45 refl))
  where
    no_sign : (d : ℕ) → is_digit d ≡ false → c ≢ d
    no_sign d e f = not_both (is_digit d) (ap is_digit (sym f) ∙ h) e

to_int-negate : (n : ℕ) → suc n ≤ 2 ^ 31 → to_int (negate (suc n)) ≡ negsuc n
to_int-negate n h = ground arith

to_int_small : (n : ℕ) → n < 2 ^ 31 → to_int n ≡ pos n
to_int_small n h = ground arith

sign-not_space : (c : ℕ) → (c ≡ 43) ⊎ (c ≡ 45) → is_space c ≡ false
unfolding is_space
sign-not_space c h = ground arith

pub get_signed_number_lem :
    (z : ℤ) (o : List ℕ) → Offset z o → (get_signed_number (skip_whitespace (32 ∷ o))).0 ≡ z
get_signed_number_lem z [] h = absurd h
get_signed_number_lem z (c ∷ cs) (inl (e, n, m, l, r)) =
    ap (λ t. (get_signed_number t).0) (skip_one c cs (sign-not_space c (inl e)))
    ∙ signed_plus c cs e
    ∙ ap to_int (Numeral-end n cs m)
    ∙ to_int_small n l
    ∙ sym r
get_signed_number_lem z (c ∷ cs) (inr (inl (e, n, m, l, r))) =
    ap (λ t. (get_signed_number t).0) (skip_one c cs (sign-not_space c (inr e)))
    ∙ signed_minus c cs e
    ∙ ap (λ k. to_int (negate k)) (Numeral-end (suc n) cs m)
    ∙ to_int-negate n l
    ∙ sym r
get_signed_number_lem z (c ∷ cs) (inr (inr (n, m, l, r))) =
    let d = (read_digit 0 c n cs m.1).0 in
    ap (λ t. (get_signed_number t).0) (skip_one c cs (digit-not_space c d))
    ∙ signed_digit c cs d
    ∙ ap to_int (Numeral-end n (c ∷ cs) m)
    ∙ to_int_small n l
    ∙ sym r
