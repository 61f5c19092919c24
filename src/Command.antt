-- ===== src/Command.antt =====
-- lib/command_parser.c and command_parser.h: the commands that the user types. The text is the list of
-- its characters before the terminating 0, and the index into it is the rest of the list. A number is
-- computed in 32 bits and read as an `int`.
mod Ranges
mod Numerals
mod Words
mod Typed
mod Tests
use choochoo_os.Base.{
  ℕ, suc, ◌+◌, ◌-◌, ◌*◌, ◌%◌, ◌^◌, Bool, true, false, not, ◌&&◌, ◌||◌, leb, ◌==◌, if◌then◌else◌,
  List, [], ◌∷◌, codes, is_digit, is_alnum, is_space,
}
use choochoo_os.Base.Int.{ℤ, pos, negsuc, ltb_ℤ, to_int, to_u32}
use choochoo_os.Hash.{eq_key}
use choochoo_os.Text.{max_string_len}
use choochoo_os.User.Switch.{SwitchMode, switch_mode_s, switch_mode_c}

pub data CommandResult : Type 0 where
  train_speed_command : ℕ → ℕ → CommandResult
  reverse_command reverse_initial_command : ℕ → CommandResult
  switch_command : ℕ → SwitchMode → CommandResult
  lights_command : ℕ → Bool → CommandResult
  path_command : ℕ → ℕ → ℤ → List ℕ → CommandResult
  start_pacman_command : ℕ → ℕ → ℕ → ℕ → CommandResult
  clear_command reset_track_command quit_command : CommandResult
  start_randompath_command end_randompath_command end_pacman_command error_command : CommandResult

unfoldable pub skip_whitespace : List ℕ → List ℕ
skip_whitespace [] = []
skip_whitespace (c ∷ cs) = let rest = skip_whitespace cs in if is_space c then rest else c ∷ cs

-- A word of which `len` characters are read. Characters that are neither letters, digits nor spaces are
-- left out, as are those that no longer fit.
unfoldable pub get_str : ℕ → List ℕ → List ℕ × List ℕ
get_str len [] = ([], [])
get_str len (c ∷ cs) =
    let fits = is_alnum c && not (leb max_string_len len) in
    let (word, rest) = get_str (if fits then suc len else len) cs in
    if is_alnum c
    then (if fits then (c ∷ word, rest) else (word, rest))
    else if is_space c
    then ([], c ∷ cs)
    else (word, rest)

-- The digits read on to the number `n`.
unfoldable pub get_i : ℕ → List ℕ → ℕ × List ℕ
get_i n [] = (n, [])
get_i n (c ∷ cs) =
    let more = get_i ((n * 10 + (c - 48)) % 2 ^ 32) cs in if is_digit c then more else (n, c ∷ cs)

-- -n in 32 bits.
abbrev pub negate : ℕ → ℕ
negate n = (2 ^ 32 - n % 2 ^ 32) % 2 ^ 32

unfoldable pub get_signed_number : List ℕ → ℤ × List ℕ
get_signed_number [] = (pos 0, [])
get_signed_number (c ∷ cs) =
    if c == 43
    then (let (n, rest) = get_i 0 cs in (to_int n, rest))
    else if c == 45
    then (let (n, rest) = get_i 0 cs in (to_int (negate n), rest))
    else (let (n, rest) = get_i 0 (c ∷ cs) in (to_int n, rest))

-- skip_whitespace and then get_i, as an `int`.
unfoldable pub next_int : List ℕ → ℤ × List ℕ
next_int text = let (n, rest) = get_i 0 (skip_whitespace text) in (to_int n, rest)

unfoldable pub next_str : List ℕ → List ℕ × List ℕ
next_str text = get_str 0 (skip_whitespace text)

unfoldable pub outside : ℤ → ℕ → ℕ → Bool
outside n low high = ltb_ℤ (pos high) n || ltb_ℤ n (pos low)

unfoldable pub parse_tr : List ℕ → CommandResult
parse_tr text =
    let (train, text1) = next_int text in
    let (speed, text2) = next_int text1 in
    if outside speed 0 14 || outside train 1 80
    then error_command
    else train_speed_command (to_u32 train) (to_u32 speed)

unfoldable pub parse_rv : (ℕ → CommandResult) → List ℕ → CommandResult
parse_rv command text =
    let (train, text1) = next_int text in
    if outside train 1 80 then error_command else command (to_u32 train)

unfoldable pub parse_sw : List ℕ → CommandResult
parse_sw text =
    let (switch_id, text1) = next_int text in
    let (switch_mode, text2) = next_str text1 in
    if outside switch_id 1 18 && outside switch_id 153 156
    then error_command
    else if eq_key switch_mode (codes "S")
    then switch_command (to_u32 switch_id) switch_mode_s
    else if eq_key switch_mode (codes "C")
    then switch_command (to_u32 switch_id) switch_mode_c
    else error_command

unfoldable pub parse_light : List ℕ → CommandResult
parse_light text =
    let (train, text1) = next_int text in
    let (light_mode, text2) = next_str text1 in
    if outside train 1 80
    then error_command
    else if eq_key light_mode (codes "on")
    then lights_command (to_u32 train) true
    else if eq_key light_mode (codes "off")
    then lights_command (to_u32 train) false
    else error_command

unfoldable pub parse_path : List ℕ → CommandResult
parse_path text =
    let (train, text1) = next_int text in
    let (speed, text2) = next_int text1 in
    let (dest_node, text3) = next_str text2 in
    let (offset, text4) = get_signed_number (skip_whitespace text3) in
    if outside speed 5 14
    then error_command
    else path_command (to_u32 train) (to_u32 speed) offset dest_node

unfoldable pub parse_spm : List ℕ → CommandResult
parse_spm text =
    let (pac_train, text1) = next_int text in
    let (ghost_1, text2) = next_int text1 in
    let (ghost_2, text3) = next_int text2 in
    let (ghost_3, text4) = next_int text3 in
    start_pacman_command (to_u32 pac_train) (to_u32 ghost_1) (to_u32 ghost_2) (to_u32 ghost_3)

-- By the name of the command, with the text behind it.
unfoldable pub parse_named : List ℕ → List ℕ → CommandResult
parse_named name text =
    if eq_key name (codes "tr")
    then parse_tr text
    else if eq_key name (codes "rv")
    then parse_rv reverse_command text
    else if eq_key name (codes "rvi")
    then parse_rv reverse_initial_command text
    else if eq_key name (codes "sw")
    then parse_sw text
    else if eq_key name (codes "light")
    then parse_light text
    else if eq_key name (codes "q")
    then quit_command
    else if eq_key name (codes "rt")
    then reset_track_command
    else if eq_key name (codes "clear")
    then clear_command
    else if eq_key name (codes "path")
    then parse_path text
    else if eq_key name (codes "srp")
    then start_randompath_command
    else if eq_key name (codes "erp")
    then end_randompath_command
    else if eq_key name (codes "spm")
    then parse_spm text
    else if eq_key name (codes "epm")
    then end_pacman_command
    else error_command

unfoldable pub parse_command : List ℕ → CommandResult
parse_command text = let (name, rest) = get_str 0 text in parse_named name rest
