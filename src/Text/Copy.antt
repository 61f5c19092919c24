-- ===== src/Text/Copy.antt =====
-- Characters of one string pushed onto another, cut at MAX_STRING_LEN.
use mathlib.Core.Path.{subst}
use choochoo_os.Base.{
  ℕ, zero, suc, ◌+◌, ◌-◌, ◌≤◌, ◌≡◌, refl, sym, ap, ◌∙◌, ◌⊎◌, inl, inr, true, false, leb, List, [],
  ◌∷◌, ◌++◌, append_assoc, append-nil, length, length-append, arith,
}
use choochoo_os.Text.{
  Str, max_string_len, new_string, push_char, push_from, string_concat, str_copy, get_suffix,
}
use choochoo_os.Text.Chars.{Reads, Holds, push_char-Holds, new_string-Holds}

-- The characters that fit.
abbrev pub fitting : ℕ → List ℕ → List ℕ
fitting zero xs = []
fitting (suc n) [] = []
fitting (suc n) (x ∷ xs) = x ∷ fitting n xs

-- The loops push what fits, in order, and pass over the rest.
push_from-Holds :
    (left i k : ℕ) (source : ℕ → ℕ) (ys : List ℕ) (s : Str) (xs : List ℕ)
    → left ≡ length ys
    → Reads source i ys
    → length xs + k ≡ max_string_len
    → Holds s xs
    → Holds (push_from left i source s) (xs ++ fitting k ys)
unfolding push_from
push_from-Holds zero i zero source [] s xs e r full v = rw (append-nil xs) v
push_from-Holds zero i (suc k) source [] s xs e r full v = rw (append-nil xs) v
push_from-Holds (suc left) i k source [] s xs e r full v = absurd (omega arith)
push_from-Holds zero i k source (y ∷ ys) s xs e r full v = absurd (omega arith)
push_from-Holds (suc left) i zero source (y ∷ ys) s xs e r full v =
    elim (push_char-Holds s xs (source i) v) [
      | inl (less, _, _) ↦ absurd (omega (arith, less))
      | inr (_, _, same) ↦
          push_from-Holds left (i + 1) zero source ys (push_char s (source i)).1 xs
            (omega (arith, e)) r.1 full same
    ]
push_from-Holds (suc left) i (suc k) source (y ∷ ys) s xs e r full v =
    elim (push_char-Holds s xs (source i) v) [
      | inl (less, _, longer) ↦
          let long = length-append xs (source i ∷ []) in
          let more =
            push_from-Holds left (i + 1) k source ys (push_char s (source i)).1
              (xs ++ source i ∷ []) (omega (arith, e)) r.1 (omega (arith, full, long)) longer in
          subst (Holds (push_from left (i + 1) source (push_char s (source i)).1))
            (append_assoc xs (source i ∷ []) (fitting k ys) ∙ ap (λ c. xs ++ c ∷ fitting k ys) r.0)
            more
      | inr (at_end, _, _) ↦ absurd (omega (arith, at_end))
    ]

-- string_concat puts the characters of the second string behind those of the first, as many as fit.
pub string_concat-Holds :
    (d s : Str) (xs ys : List ℕ)
    → Holds d xs
    → Holds s ys
    → Holds (string_concat d s) (xs ++ fitting (max_string_len - length xs) ys)
unfolding string_concat
string_concat-Holds d s xs ys v w =
    push_from-Holds s.length 0 (max_string_len - length xs) s.chars ys d xs w.counted w.reads
      (omega (arith, v.room)) v

fitting-all : (n : ℕ) (xs : List ℕ) → length xs ≤ n → fitting n xs ≡ xs
fitting-all zero [] le = refl
fitting-all zero (x ∷ xs) le = absurd (omega arith)
fitting-all (suc n) [] le = refl
fitting-all (suc n) (x ∷ xs) le = ap (λ t. x ∷ t) (fitting-all n xs (omega arith))

pub str_copy-Holds : (s : Str) (xs : List ℕ) → Holds s xs → Holds (str_copy s) xs
unfolding str_copy
str_copy-Holds s xs v = subst (Holds (str_copy s)) (fitting-all max_string_len xs v.room) (
    push_from-Holds s.length 0 max_string_len s.chars xs new_string [] v.counted v.reads refl
      new_string-Holds)

Reads-right :
    (a : ℕ → ℕ) (i : ℕ) (xs ys : List ℕ) → Reads a i (xs ++ ys) → Reads a (i + length xs) ys
Reads-right a i [] ys r = subst (λ n. Reads a n ys) (omega arith) r
Reads-right a i (x ∷ xs) ys r =
    subst (λ n. Reads a n ys) (omega arith) (Reads-right a (i + 1) xs ys r.1)

get_suffix_short :
    (s : Str) (ys : List ℕ) (asked : ℕ)
    → Holds s ys
    → length ys ≤ asked
    → Holds (get_suffix s asked) ys
unfolding get_suffix
get_suffix_short s ys asked v le =
    let m = v.counted in
    let short : leb s.length asked ≡ true = ground (arith, m, le) in
    rw (get_suffix, short) (str_copy-Holds s ys v)

-- get_suffix gives the last characters, as many as are asked for, or the whole of a shorter string.
pub get_suffix-Holds :
    (s : Str) (xs ys : List ℕ) (asked : ℕ)
    → Holds s (xs ++ ys)
    → (length ys ≡ asked) ⊎ ((xs ≡ []) × (length ys ≤ asked))
    → Holds (get_suffix s asked) ys
unfolding get_suffix
get_suffix-Holds s xs ys asked v (inr (e, le)) =
    get_suffix_short s ys asked (subst (λ t. Holds s (t ++ ys)) e v) le
get_suffix-Holds s [] ys asked v (inl e) = get_suffix_short s ys asked v (omega arith)
get_suffix-Holds s (x ∷ xs) ys asked v (inl e) =
    let all = (x ∷ xs) ++ ys in
    let m = v.counted in
    let long = length-append (x ∷ xs) ys in
    let cut : leb s.length asked ≡ false = ground (arith, m, long, e) in
    let at : 0 + length (x ∷ xs) ≡ s.length - asked = omega (arith, m, long, e) in
    let tail : Reads s.chars (s.length - asked) ys =
      subst (λ n. Reads s.chars n ys) at (Reads-right s.chars 0 (x ∷ xs) ys v.reads) in
    rw (get_suffix, cut)
      (subst (Holds (push_from asked (s.length - asked) s.chars new_string))
        (fitting-all max_string_len ys (omega (arith, v.room, long)))
        (push_from-Holds asked (s.length - asked) max_string_len s.chars ys new_string [] (sym e)
          tail refl new_string-Holds))
