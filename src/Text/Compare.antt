-- ===== src/Text/Compare.antt =====
-- str_cmp compares the lists that the strings hold.
use choochoo_os.Base.{
  ℕ, ◌+◌, ◌≡◌, refl, sym, ap, ◌∙◌, inl, inr, Bool, true, false, Bool-cases, ◌==◌, if◌then◌else◌,
  List, [], ◌∷◌, length, arith,
}
use choochoo_os.Text.{Str, cmp_from, str_cmp}
use choochoo_os.Text.Chars.{Reads, Holds}

-- The lists are equal.
abbrev pub eq_list : List ℕ → List ℕ → Bool
eq_list [] [] = true
eq_list [] (_ ∷ _) = false
eq_list (_ ∷ _) [] = false
eq_list (x ∷ xs) (y ∷ ys) = let rest = eq_list xs ys in if x == y then rest else false

cmp_from-eq_list :
    (i : ℕ) (a b : ℕ → ℕ) (xs ys : List ℕ)
    → length xs ≡ length ys
    → Reads a i xs
    → Reads b i ys
    → cmp_from (length xs) i a b ≡ eq_list xs ys
unfolding cmp_from
cmp_from-eq_list i a b [] [] e r q = refl
cmp_from-eq_list i a b [] (y ∷ ys) e r q = absurd (omega arith)
cmp_from-eq_list i a b (x ∷ xs) [] e r q = absurd (omega arith)
cmp_from-eq_list i a b (x ∷ xs) (y ∷ ys) e r q =
    rw (cmp_from, r.0, q.0, cmp_from-eq_list (i + 1) a b xs ys (omega (arith, e)) r.1 q.1) refl

eq_list-length : (xs ys : List ℕ) → eq_list xs ys ≡ true → length xs ≡ length ys
eq_list-length [] [] h = refl
eq_list-length [] (y ∷ ys) h = ground arith
eq_list-length (x ∷ xs) [] h = ground arith
eq_list-length (x ∷ xs) (y ∷ ys) h = ground (arith, eq_list-length xs ys)

-- str_cmp compares the characters.
pub str_cmp-eq_list :
    (a b : Str) (xs ys : List ℕ) → Holds a xs → Holds b ys → str_cmp a b ≡ eq_list xs ys
unfolding str_cmp
str_cmp-eq_list a b xs ys v w =
    let m = v.counted in
    let n = w.counted in
    elim (Bool-cases (a.length == b.length)) [
      | inl e ↦
          let same : length xs ≡ length ys = ground (arith, m, n, e) in
          rw (str_cmp, e)
            (ap (λ k. cmp_from k 0 a.chars b.chars) m
              ∙ cmp_from-eq_list 0 a.chars b.chars xs ys same v.reads w.reads)
      | inr e ↦ rw (str_cmp, e) (sym (unequal e))
    ]
  where
    unequal : (a.length == b.length) ≡ false → eq_list xs ys ≡ false
    unequal e = elim (Bool-cases (eq_list xs ys)) [
      | inl q ↦
          let same = eq_list-length xs ys q in
          let m = v.counted in let n = w.counted in absurd (ground (arith, m, n, e, same))
      | inr q ↦ q
    ]
