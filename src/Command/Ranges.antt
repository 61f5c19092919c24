-- ===== src/Command/Ranges.antt =====
-- lib/command_parser.c: the numbers of a command are in their ranges.
use choochoo_os.Base.{
  ℕ, ◌≤◌, ◌<◌, ◌^◌, ◌≡◌, ◌≢◌, ◌⊎◌, inl, inr, ◌&&◌, ◌||◌, ◌+◌, length, Bool, Bool-cases, true, false,
  if◌then◌else◌, if-cases, List, [], ◌∷◌, codes, All, is_alnum, is_space, leb, not, suc, arith,
}
use choochoo_os.Base.Int.{ℤ, pos, negsuc, to_u32}
use choochoo_os.Text.{max_string_len}
use choochoo_os.Hash.{eq_key}
use choochoo_os.User.Switch.{switch_mode_unknown}
use choochoo_os.Command.{
  CommandResult, train_speed_command, reverse_command, reverse_initial_command, switch_command,
  lights_command, path_command, start_pacman_command, next_int, next_str, get_str, skip_whitespace,
  outside, parse_tr, parse_rv, parse_sw, parse_light, parse_path, parse_spm, parse_named,
  parse_command,
}

abbrev pub Within : ℕ → ℕ → ℕ → Type 0
Within low high n = (low ≤ n) × (n ≤ high)

-- The ranges of the arguments of a command. Those of a pacman game and the train of a path have none.
abbrev pub IsValid : CommandResult → Type 0
IsValid (train_speed_command train speed) = Within 1 80 train × (speed ≤ 14)
IsValid (reverse_command train) = Within 1 80 train
IsValid (reverse_initial_command train) = Within 1 80 train
IsValid (switch_command switch_id mode) =
    (Within 1 18 switch_id ⊎ Within 153 156 switch_id) × (mode ≢ switch_mode_unknown)
IsValid (lights_command train state) = Within 1 80 train
IsValid (path_command train speed offset dest_node) =
    Within 5 14 speed × All (λ c. is_alnum c ≡ true) dest_node
IsValid _ = Unit

-- What the parser makes sure of, for every command.
abbrev pub Bounded : CommandResult → Type 0
Bounded (path_command train speed offset dest_node) =
    IsValid (path_command train speed offset dest_node)
    × (train < 2 ^ 32)
    × (length dest_node ≤ max_string_len)
Bounded (start_pacman_command pac_train ghost_1 ghost_2 ghost_3) =
    (pac_train < 2 ^ 32) × (ghost_1 < 2 ^ 32) × (ghost_2 < 2 ^ 32) × (ghost_3 < 2 ^ 32)
Bounded c = IsValid c

to_u32_lt : (z : ℤ) → to_u32 z < 2 ^ 32
to_u32_lt (pos n) = omega arith
to_u32_lt (negsuc n) = omega arith

inside :
    (z : ℤ) (low high : ℕ) → high < 2 ^ 32 → outside z low high ≡ false → Within low high (to_u32 z)
unfolding outside
inside (pos n) low high h e = ground arith
inside (negsuc n) low high h e = absurd (ground arith)

abbrev Alnum : ℕ → Type 0
Alnum c = is_alnum c ≡ true

or_left : (a b : Bool) → a || b ≡ false → a ≡ false
or_left a b h = ground arith

or_right : (a b : Bool) → a || b ≡ false → b ≡ false
or_right a b h = ground arith

get_str-All : (len : ℕ) (text : List ℕ) → All (λ c. is_alnum c ≡ true) (get_str len text).0
unfolding get_str
get_str-All len [] = tt
get_str-All len (c ∷ cs) =
    let fits : Bool = is_alnum c && not (leb max_string_len len) in
    let r : List ℕ × List ℕ = get_str (if fits then suc len else len) cs in
    let h : All Alnum r.0 = get_str-All (if fits then suc len else len) cs in
    if-cases {A = List ℕ × List ℕ} (λ p. All Alnum p.0) (is_alnum c)
      (λ e. if-cases {A = List ℕ × List ℕ} (λ p. All Alnum p.0) fits (λ _. (e, h)) (λ _. h))
      (λ _. if-cases {A = List ℕ × List ℕ} (λ p. All Alnum p.0) (is_space c) (λ _. tt) (λ _. h))

get_str-length :
    (len : ℕ) (text : List ℕ)
    → len ≤ max_string_len
    → len + length (get_str len text).0 ≤ max_string_len
unfolding get_str
get_str-length len [] h = omega arith
get_str-length len (c ∷ cs) h = ground (arith, get_str-length len cs h, get_str-length (suc len) cs)

parse_tr-Bounded : (text : List ℕ) → Bounded (parse_tr text)
unfolding parse_tr
parse_tr-Bounded text =
    let (train, text1) = next_int text in
    let (speed, text2) = next_int text1 in
    if-cases Bounded (outside speed 0 14 || outside train 1 80) (λ _. tt)
      (λ e. (
        inside train 1 80 (omega arith) (or_right (outside speed 0 14) (outside train 1 80) e),
        (inside speed 0 14 (omega arith) (or_left (outside speed 0 14) (outside train 1 80) e)).1,
      ))

parse_rv-Bounded :
    (command : ℕ → CommandResult) (text : List ℕ)
    → ((n : ℕ) → Within 1 80 n → Bounded (command n))
    → Bounded (parse_rv command text)
unfolding parse_rv
parse_rv-Bounded command text h =
    let (train, text1) = next_int text in
    if-cases Bounded (outside train 1 80) (λ _. tt)
      (λ e. h (to_u32 train) (inside train 1 80 (omega arith) e))

parse_sw-Bounded : (text : List ℕ) → Bounded (parse_sw text)
unfolding parse_sw
parse_sw-Bounded text =
    let (id, text1) = next_int text in
    let (mode, text2) = next_str text1 in
    if-cases Bounded (outside id 1 18 && outside id 153 156) (λ _. tt)
      (λ e.
        let ok = or_inside id e in
        if-cases Bounded (eq_key mode (codes "S")) (λ _. (ok, λ p. absurd (ground arith)))
          (λ _.
            if-cases Bounded (eq_key mode (codes "C")) (λ _. (ok, λ p. absurd (ground arith)))
              (λ _. tt)))
  where
    or_inside :
        (z : ℤ)
        → (outside z 1 18 && outside z 153 156) ≡ false
        → Within 1 18 (to_u32 z) ⊎ Within 153 156 (to_u32 z)
    or_inside z e = elim (Bool-cases (outside z 1 18)) [
      | inl a ↦ inr (inside z 153 156 (omega arith) (ground (arith)))
      | inr a ↦ inl (inside z 1 18 (omega arith) a)
    ]

parse_light-Bounded : (text : List ℕ) → Bounded (parse_light text)
unfolding parse_light
parse_light-Bounded text =
    let (train, text1) = next_int text in
    let (mode, text2) = next_str text1 in
    if-cases Bounded (outside train 1 80) (λ _. tt)
      (λ e.
        let ok = inside train 1 80 (omega arith) e in
        if-cases Bounded (eq_key mode (codes "on")) (λ _. ok)
          (λ _. if-cases Bounded (eq_key mode (codes "off")) (λ _. ok) (λ _. tt)))

parse_path-Bounded : (text : List ℕ) → Bounded (parse_path text)
unfolding parse_path next_str
parse_path-Bounded text =
    let (train, text1) = next_int text in
    let (speed, text2) = next_int text1 in
    if-cases Bounded (outside speed 5 14) (λ _. tt)
      (λ e. (
        (inside speed 5 14 (omega arith) e, get_str-All 0 (skip_whitespace text2)),
        to_u32_lt train,
        omega (arith, get_str-length 0 (skip_whitespace text2) (omega arith)),
      ))

parse_spm-Bounded : (text : List ℕ) → Bounded (parse_spm text)
unfolding parse_spm
parse_spm-Bounded text =
    let (pac_train, text1) = next_int text in
    let (ghost_1, text2) = next_int text1 in
    let (ghost_2, text3) = next_int text2 in
    let (ghost_3, text4) = next_int text3 in
    (to_u32_lt pac_train, to_u32_lt ghost_1, to_u32_lt ghost_2, to_u32_lt ghost_3)

parse_named-Bounded : (name text : List ℕ) → Bounded (parse_named name text)
unfolding parse_named
parse_named-Bounded name text =
    if-cases Bounded (eq_key name (codes "tr")) (λ _. parse_tr-Bounded text)
      (λ _.
        if-cases Bounded (eq_key name (codes "rv"))
          (λ _. parse_rv-Bounded reverse_command text (λ n h. h))
          (λ _.
            if-cases Bounded (eq_key name (codes "rvi"))
              (λ _. parse_rv-Bounded reverse_initial_command text (λ n h. h))
              (λ _.
                if-cases Bounded (eq_key name (codes "sw")) (λ _. parse_sw-Bounded text)
                  (λ _.
                    if-cases Bounded (eq_key name (codes "light")) (λ _. parse_light-Bounded text)
                      (λ _.
                        if-cases Bounded (eq_key name (codes "q")) (λ _. tt)
                          (λ _.
                            if-cases Bounded (eq_key name (codes "rt")) (λ _. tt)
                              (λ _.
                                if-cases Bounded (eq_key name (codes "clear")) (λ _. tt)
                                  (λ _.
                                    if-cases Bounded (eq_key name (codes "path"))
                                      (λ _. parse_path-Bounded text)
                                      (λ _.
                                        if-cases Bounded (eq_key name (codes "srp")) (λ _. tt)
                                          (λ _.
                                            if-cases Bounded (eq_key name (codes "erp")) (λ _. tt)
                                              (λ _.
                                                if-cases Bounded (eq_key name (codes "spm"))
                                                  (λ _. parse_spm-Bounded text)
                                                  (λ _.
                                                    if-cases Bounded (eq_key name (codes "epm"))
                                                      (λ _. tt) (λ _. tt)))))))))))))

-- Whatever the text, a command that is parsed has a train from 1 to 80 and a speed up to 14 in "tr", a
-- train from 1 to 80 in "rv", "rvi" and "light", a turnout from 1 to 18 or from 153 to 156 and a
-- direction in "sw", and in "path" a speed from 5 to 14 and a destination of at most 128 letters and
-- digits. The train of "path" and the four trains of "spm" are only bounded by their 32 bits.
pub parse_command-Bounded : (text : List ℕ) → Bounded (parse_command text)
unfolding parse_command
parse_command-Bounded text = let (name, rest) = get_str 0 text in parse_named-Bounded name rest
