-- ===== src/Text/Tests.antt =====
-- Strings of a few characters.
use choochoo_os.Base.{refl, ◌==◌, if◌then◌else◌, [], ◌∷◌, arith}
use choochoo_os.Text.{Str, string_concat}
use choochoo_os.Text.Chars.{Holds}
use choochoo_os.Text.Copy.{fitting, string_concat-Holds}

-- "ab".
abbrev ab : Str
ab = record { chars = λ i. if i == 0 then 97 else if i == 1 then 98 else 0; length = 2 }

ab-Holds : Holds ab (97 ∷ 98 ∷ [])
ab-Holds = record { counted = refl; room = omega arith; reads = (refl, (refl, tt)); ended = refl }

string_concat-Holds_example : Holds (string_concat ab ab) (97 ∷ 98 ∷ fitting 126 (97 ∷ 98 ∷ []))
string_concat-Holds_example =
    string_concat-Holds ab ab (97 ∷ 98 ∷ []) (97 ∷ 98 ∷ []) ab-Holds ab-Holds
