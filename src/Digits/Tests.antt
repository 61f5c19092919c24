-- ===== src/Digits/Tests.antt =====
-- Texts of some numbers.
use choochoo_os.Base.{ℕ, ◌≡◌, refl, some, List, [], ◌∷◌, arith}
use choochoo_os.Base.Int.{negsuc}
use choochoo_os.Digits.{scale, print_digits, ui2a, i2a}
use choochoo_os.Digits.Print.{read, read-ui2a}

-- 255 is "ff" in base 16, -40 is "-40".
ui2a-255 : ui2a 255 16 ≡ some (102 ∷ 102 ∷ [])
unfolding ui2a scale print_digits
ui2a-255 = refl

i2a-negsuc : i2a (negsuc 39) ≡ some (45 ∷ 52 ∷ 48 ∷ [])
unfolding i2a ui2a scale print_digits
i2a-negsuc = refl

read-ui2a_example :
    (text : List ℕ) × (ui2a 4294967295 10 ≡ some text) × (read 10 0 text ≡ some 4294967295)
read-ui2a_example = read-ui2a 4294967295 10 (omega arith) (omega arith) (omega arith)
