-- ===== src/Text/Chars.antt =====
-- A string holds a list of characters; one character put on or taken off.
use choochoo_os.Base.{
  ℕ, ◌+◌, ◌-◌, ◌≤◌, ◌<◌, ◌≡◌, refl, ap, ◌∙◌, ◌⊎◌, inl, inr, false, Bool-cases, leb, ◌==◌, update,
  update_ne, List, [], ◌∷◌, ◌++◌, length, length-append, arith,
}
use choochoo_os.Base.Int.{pos, negsuc}
use choochoo_os.Text.{Str, max_string_len, new_string, push_char, pop_char}

-- The characters stand in the array from `i` on.
abbrev pub Reads : (ℕ → ℕ) → ℕ → List ℕ → Type 0
Reads a i [] = Unit
Reads a i (x ∷ xs) = (a i ≡ x) × Reads a (i + 1) xs

pub record Holds (s : Str) (xs : List ℕ) : Type 0 where
  pub counted : s.length ≡ length xs
  pub room : length xs ≤ max_string_len
  pub reads : Reads s.chars 0 xs
  pub ended : s.chars (length xs) ≡ 0

Reads-write :
    (a : ℕ → ℕ) (i n c : ℕ) (xs : List ℕ)
    → i + length xs ≤ n
    → Reads a i xs
    → Reads (update a n c) i xs
Reads-write a i n c [] le r = tt
Reads-write a i n c (x ∷ xs) le (e, r) =
    (update_ne a n i c (omega arith) ∙ e, Reads-write a (i + 1) n c xs (omega arith) r)

Reads-snoc :
    (a : ℕ → ℕ) (i : ℕ) (xs : List ℕ) (c : ℕ)
    → Reads a i xs
    → a (i + length xs) ≡ c
    → Reads a i (xs ++ c ∷ [])
Reads-snoc a i [] c r e = (ap a (omega arith) ∙ e, tt)
Reads-snoc a i (x ∷ xs) c (f, r) e = (f, Reads-snoc a (i + 1) xs c r (ap a (omega arith) ∙ e))

-- Pushing a character puts it behind the others and says 0, or changes nothing and says -1 if the string
-- is full.
pub push_char-Holds :
    (s : Str) (xs : List ℕ) (c : ℕ)
    → Holds s xs
    → let (r, s') = push_char s c in
      ((length xs < max_string_len) × (r ≡ pos 0) × Holds s' (xs ++ c ∷ []))
      ⊎ ((length xs ≡ max_string_len) × (r ≡ negsuc 0) × Holds s' xs)
unfolding push_char
push_char-Holds s xs c v =
    let m = v.counted in
    let room = v.room in
    elim (Bool-cases (leb max_string_len s.length)) [
      | inl e ↦ rw (push_char, e) (inr (ground arith, refl, v))
      | inr e ↦
          let less : length xs < 128 = ground arith in
          let long = length-append xs (c ∷ []) in
          let written = update (update s.chars s.length c) (s.length + 1) 0 in
          let at : written (0 + length xs) ≡ c = ground (arith, m) in
          rw (push_char, e)
            (inl (
              less,
              refl,
              record {
                counted = omega (arith, m, long);
                room = omega (arith, less, long);
                reads =
                    Reads-snoc written 0 xs c
                      (Reads-write (update s.chars s.length c) 0 (s.length + 1) 0 xs
                        (omega (arith, m))
                        (Reads-write s.chars 0 s.length c xs (omega (arith, m)) v.reads))
                      at;
                ended = ground (arith, m, long);
              },
            ))
    ]

Reads-left : (a : ℕ → ℕ) (i : ℕ) (xs ys : List ℕ) → Reads a i (xs ++ ys) → Reads a i xs
Reads-left a i [] ys r = tt
Reads-left a i (x ∷ xs) ys r = (r.0, Reads-left a (i + 1) xs ys r.1)

-- Taking a character off undoes putting it on.
pub pop_char-Holds :
    (s : Str) (xs : List ℕ) (c : ℕ) → Holds s (xs ++ c ∷ []) → Holds (pop_char s) xs
unfolding pop_char
pop_char-Holds s xs c v =
    let m = v.counted in
    let long = length-append xs (c ∷ []) in
    let some_left : (s.length == 0) ≡ false = ground (arith, m, long) in
    rw (pop_char, some_left)
      (record {
        counted = omega (arith, m, long);
        room = omega (arith, long, v.room);
        reads =
            Reads-write s.chars 0 (s.length - 1) 0 xs (omega (arith, m, long))
              (Reads-left s.chars 0 xs (c ∷ []) v.reads);
        ended = ground (arith, m, long);
      })

pub new_string-Holds : Holds new_string []
new_string-Holds = record { counted = refl; room = omega arith; reads = tt; ended = refl }
