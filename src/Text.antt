-- ===== src/Text.antt =====
-- lib/string.c and string.h: strings of at most MAX_STRING_LEN characters, in an array with a 0 behind
-- the last. _string_format, which reads a C argument list, is left out.
pub mod Chars
pub mod Copy
pub mod Compare
mod Tests
use choochoo_os.Base.{
  ℕ, zero, suc, ◌+◌, ◌-◌, Bool, true, false, ltb, leb, ◌==◌, if◌then◌else◌, update, List, [], ◌∷◌,
}
use choochoo_os.Base.Int.{ℤ, pos, negsuc}

abbrev pub max_string_len : ℕ
max_string_len = 128

pub record Str : Type 0 where
  pub chars : ℕ → ℕ
  pub length : ℕ

abbrev pub new_string : Str
new_string = record { chars = λ _. 0; length = 0 }

unfoldable pub push_char : Str → ℕ → ℤ × Str
push_char s c = if leb max_string_len s.length then (negsuc 0, s) else (
  pos 0,
  record { chars = update (update s.chars s.length c) (s.length + 1) 0; length = s.length + 1 },
)

unfoldable pub pop_char : Str → Str
pop_char s =
    if s.length == 0
    then s
    else record { chars = update s.chars (s.length - 1) 0; length = s.length - 1 }

abbrev pub str_clear : Str → Str
str_clear s = record { chars = update s.chars 0 0; length = 0 }

-- The loops that push the characters of another string, `left` of them from `i` on.
unfoldable pub push_from : ℕ → ℕ → (ℕ → ℕ) → Str → Str
push_from zero i source s = s
push_from (suc left) i source s = push_from left (i + 1) source (push_char s (source i)).1

-- The two are different strings.
unfoldable pub string_concat : Str → Str → Str
string_concat destination source = push_from source.length 0 source.chars destination

unfoldable pub str_copy : Str → Str
str_copy s = push_from s.length 0 s.chars new_string

-- For a number asked for that is not negative.
unfoldable pub get_suffix : Str → ℕ → Str
get_suffix s length =
    if leb s.length length
    then str_copy s
    else push_from length (s.length - length) s.chars new_string

-- A C string as the list of its characters before the 0.
unfoldable pub to_string : List ℕ → Str → Str
to_string [] s = s
to_string (c ∷ cs) s = to_string cs (push_char s c).1

-- The loop of str_cmp.
unfoldable pub cmp_from : ℕ → ℕ → (ℕ → ℕ) → (ℕ → ℕ) → Bool
cmp_from zero i a b = true
cmp_from (suc left) i a b =
    let rest = cmp_from left (i + 1) a b in if a i == b i then rest else false

unfoldable pub str_cmp : Str → Str → Bool
str_cmp a b = if a.length == b.length then cmp_from a.length 0 a.chars b.chars else false
