-- ===== src/Command/Typed.antt =====
-- lib/command_parser.c: what is typed as a command is parsed as that command.
use mathlib.Core.Path.{subst}
use choochoo_os.Base.{
  ℕ, ◌≤◌, ◌<◌, ◌^◌, ◌≡◌, refl, ap, ◌∙◌, sym, ◌≢◌, ◌⊎◌, inl, inr, Bool, true, false, ◌&&◌,
  if◌then◌else◌, List, [], ◌∷◌, ◌++◌, length, All, codes, is_alnum, arith,
}
use choochoo_os.Base.Int.{ℤ, to_int}
use choochoo_os.Hash.{eq_key}
use choochoo_os.Text.{max_string_len}
use choochoo_os.User.Switch.{SwitchMode, switch_mode_s, switch_mode_c, switch_mode_unknown}
use choochoo_os.Command.{
  CommandResult, train_speed_command, reverse_command, reverse_initial_command, switch_command,
  lights_command, path_command, start_pacman_command, clear_command, reset_track_command,
  quit_command, start_randompath_command, end_randompath_command, end_pacman_command, error_command,
  next_int, next_str, get_signed_number, skip_whitespace, outside, parse_tr, parse_rv, parse_sw,
  parse_light, parse_path, parse_spm, parse_named, parse_command,
}
use choochoo_os.Command.Ranges.{IsValid, Within}
use choochoo_os.Command.Numerals.{Ends, Numeral, IsWord}
use choochoo_os.Command.Words.{
  Offset, next_int_lem, next_str_lem, get_str_word, get_signed_number_lem, to_u32-to_int,
}

-- A numeral behind a space, and a text that begins with a space or is empty.
abbrev pub Then : ℕ → (List ℕ → Type 0) → List ℕ → Type 0
Then n P x = (a : List ℕ) × (r : List ℕ) × Numeral n a × Ends r × (x ≡ 32 ∷ (a ++ r)) × P r

abbrev pub Nothing : List ℕ → Type 0
Nothing x = x ≡ []

-- A word behind a space.
abbrev pub ThenWord : List ℕ → (List ℕ → Type 0) → List ℕ → Type 0
ThenWord w P x = (r : List ℕ) × IsWord w × Ends r × (x ≡ 32 ∷ (w ++ r)) × P r

abbrev pub ThenOffset : ℤ → List ℕ → Type 0
ThenOffset z x = (o : List ℕ) × Offset z o × (x ≡ 32 ∷ o)

abbrev pub letter : SwitchMode → List ℕ
letter switch_mode_s = codes "S"
letter _ = codes "C"

abbrev pub on_off : Bool → List ℕ
on_off true = codes "on"
on_off false = codes "off"

-- The name of a command, and what is typed behind it, with single spaces between the words.
abbrev pub name_of : CommandResult → List ℕ
name_of (train_speed_command train speed) = codes "tr"
name_of (reverse_command train) = codes "rv"
name_of (reverse_initial_command train) = codes "rvi"
name_of (switch_command switch_id mode) = codes "sw"
name_of (lights_command train state) = codes "light"
name_of (path_command train speed offset dest_node) = codes "path"
name_of (start_pacman_command p a b c) = codes "spm"
name_of clear_command = codes "clear"
name_of reset_track_command = codes "rt"
name_of quit_command = codes "q"
name_of start_randompath_command = codes "srp"
name_of end_randompath_command = codes "erp"
name_of end_pacman_command = codes "epm"
name_of error_command = codes "x"

abbrev pub Arguments : CommandResult → List ℕ → Type 0
Arguments (train_speed_command train speed) = Then train (Then speed Nothing)
Arguments (reverse_command train) = Then train Nothing
Arguments (reverse_initial_command train) = Then train Nothing
Arguments (switch_command switch_id mode) = Then switch_id (ThenWord (letter mode) Nothing)
Arguments (lights_command train state) = Then train (ThenWord (on_off state) Nothing)
Arguments (path_command train speed offset dest_node) =
    Then train (Then speed (ThenWord dest_node (ThenOffset offset)))
Arguments (start_pacman_command p a b c) = Then p (Then a (Then b (Then c Nothing)))
Arguments _ = Nothing

next-Then :
    {n : ℕ} {P : List ℕ → Type 0} {x : List ℕ} → (h : Then n P x) → next_int x ≡ (to_int n, h.1)
next-Then {n} h = ap next_int h.4 ∙ next_int_lem n h.0 h.1 h.2 h.3

next_word :
    {w : List ℕ} {P : List ℕ → Type 0} {x : List ℕ} → (h : ThenWord w P x) → next_str x ≡ (w, h.0)
next_word {w} h = ap next_str h.3 ∙ next_str_lem w h.0 h.1 h.2

not_outside :
    (n low high : ℕ) → high < 2 ^ 31 → Within low high n → outside (to_int n) low high ≡ false
unfolding outside
not_outside n low high l h = ground arith

parse_tr_lem :
    (t s : ℕ) (x : List ℕ)
    → Within 1 80 t
    → s ≤ 14
    → Then t (Then s Nothing) x
    → parse_tr x ≡ train_speed_command t s
unfolding parse_tr
parse_tr_lem t s x a b h = rw (
  next-Then h,
  next-Then h.5,
  not_outside s 0 14 (omega arith) (omega arith, b),
  not_outside t 1 80 (omega arith) a,
  to_u32-to_int t (omega arith),
  to_u32-to_int s (omega arith),
)

parse_rv_lem :
    (command : ℕ → CommandResult) (t : ℕ) (x : List ℕ)
    → Within 1 80 t
    → Then t Nothing x
    → parse_rv command x ≡ command t
unfolding parse_rv
parse_rv_lem command t x a h =
    rw (next-Then h, not_outside t 1 80 (omega arith) a, to_u32-to_int t (omega arith))

parse_sw_lem :
    (i : ℕ) (m : SwitchMode) (x : List ℕ)
    → Within 1 18 i ⊎ Within 153 156 i
    → m ≢ switch_mode_unknown
    → Then i (ThenWord (letter m) Nothing) x
    → parse_sw x ≡ switch_command i m
unfolding parse_sw
parse_sw_lem i m x a n h =
    rw (next-Then h, next_word h.5, in_range, to_u32-to_int i (omega arith)) (by_mode m n)
  where
    and_false_left : (p q : Bool) → p ≡ false → p && q ≡ false
    and_false_left p q e = ground arith

    and_false_right : (p q : Bool) → q ≡ false → p && q ≡ false
    and_false_right p q e = ground arith

    in_range : (outside (to_int i) 1 18 && outside (to_int i) 153 156) ≡ false
    in_range = elim a [
      | inl l ↦
          and_false_left (outside (to_int i) 1 18) (outside (to_int i) 153 156)
            (not_outside i 1 18 (omega arith) l)
      | inr l ↦
          and_false_right (outside (to_int i) 1 18) (outside (to_int i) 153 156)
            (not_outside i 153 156 (omega arith) l)
    ]

    by_mode :
        (d : SwitchMode)
        → d ≢ switch_mode_unknown
        → (if eq_key (letter d) (codes "S")
            then switch_command i switch_mode_s
            else if eq_key (letter d) (codes "C")
            then switch_command i switch_mode_c
            else error_command)
          ≡ switch_command i d
    by_mode switch_mode_s k = refl
    by_mode switch_mode_c k = refl
    by_mode switch_mode_unknown k = absurd (k refl)

parse_light_lem :
    (t : ℕ) (on : Bool) (x : List ℕ)
    → Within 1 80 t
    → Then t (ThenWord (on_off on) Nothing) x
    → parse_light x ≡ lights_command t on
unfolding parse_light
parse_light_lem t on x a h =
    rw
      (
        next-Then h,
        next_word h.5,
        not_outside t 1 80 (omega arith) a,
        to_u32-to_int t (omega arith),
      )
      (by_state on)
  where
    by_state :
        (b : Bool)
        → (if eq_key (on_off b) (codes "on")
            then lights_command t true
            else if eq_key (on_off b) (codes "off")
            then lights_command t false
            else error_command)
          ≡ lights_command t b
    by_state true = refl
    by_state false = refl

parse_path_lem :
    (t s : ℕ) (o : ℤ) (w x : List ℕ)
    → Within 5 14 s
    → Then t (Then s (ThenWord w (ThenOffset o))) x
    → parse_path x ≡ path_command t s o w
unfolding parse_path
parse_path_lem t s o w x b h = rw (
  next-Then h,
  next-Then h.5,
  next_word h.5.5,
  offset,
  not_outside s 5 14 (omega arith) b,
  to_u32-to_int t h.2.2,
  to_u32-to_int s (omega arith),
)
  where
    offset : (get_signed_number (skip_whitespace h.5.5.0)).0 ≡ o
    offset =
        ap (λ y. (get_signed_number (skip_whitespace y)).0) h.5.5.4.2
        ∙ get_signed_number_lem o h.5.5.4.0 h.5.5.4.1

parse_spm_lem :
    (p a b c : ℕ) (x : List ℕ)
    → Then p (Then a (Then b (Then c Nothing))) x
    → parse_spm x ≡ start_pacman_command p a b c
unfolding parse_spm
parse_spm_lem p a b c x h = rw (
  next-Then h,
  next-Then h.5,
  next-Then h.5.5,
  next-Then h.5.5.5,
  to_u32-to_int p h.2.2,
  to_u32-to_int a h.5.2.2,
  to_u32-to_int b h.5.5.2.2,
  to_u32-to_int c h.5.5.5.2.2,
)

-- The arguments, parsed under the name.
parse_named_lem :
    (c : CommandResult) (x : List ℕ) → IsValid c → Arguments c x → parse_named (name_of c) x ≡ c
unfolding parse_named
parse_named_lem (train_speed_command t s) x v h = parse_tr_lem t s x v.0 v.1 h
parse_named_lem (reverse_command t) x v h = parse_rv_lem reverse_command t x v h
parse_named_lem (reverse_initial_command t) x v h = parse_rv_lem reverse_initial_command t x v h
parse_named_lem (switch_command i m) x v h = parse_sw_lem i m x v.0 v.1 h
parse_named_lem (lights_command t on) x v h = parse_light_lem t on x v h
parse_named_lem (path_command t s o w) x v h = parse_path_lem t s o w x v.0 h
parse_named_lem (start_pacman_command p a b c) x v h = parse_spm_lem p a b c x h
parse_named_lem clear_command x v h = refl
parse_named_lem reset_track_command x v h = refl
parse_named_lem quit_command x v h = refl
parse_named_lem start_randompath_command x v h = refl
parse_named_lem end_randompath_command x v h = refl
parse_named_lem end_pacman_command x v h = refl
parse_named_lem error_command x v h = refl

is_word :
    (w : List ℕ)
    → All (λ d. is_alnum d ≡ true) w
    → length w ≤ max_string_len
    → All (λ d. is_alnum d ≡ true) w × (length w ≤ max_string_len)
is_word w h l = (h, l)

name-IsWord :
    (c : CommandResult)
    → All (λ d. is_alnum d ≡ true) (name_of c) × (length (name_of c) ≤ max_string_len)
unfolding is_alnum
name-IsWord (train_speed_command t s) = is_word (codes "tr") (refl, (refl, tt)) (omega arith)
name-IsWord (reverse_command t) = is_word (codes "rv") (refl, (refl, tt)) (omega arith)
name-IsWord (reverse_initial_command t) =
    is_word (codes "rvi") (refl, (refl, (refl, tt))) (omega arith)
name-IsWord (switch_command i m) = is_word (codes "sw") (refl, (refl, tt)) (omega arith)
name-IsWord (lights_command t on) =
    is_word (codes "light") (refl, (refl, (refl, (refl, (refl, tt))))) (omega arith)
name-IsWord (path_command t s o w) =
    is_word (codes "path") (refl, (refl, (refl, (refl, tt)))) (omega arith)
name-IsWord (start_pacman_command p a b d) =
    is_word (codes "spm") (refl, (refl, (refl, tt))) (omega arith)
name-IsWord clear_command =
    is_word (codes "clear") (refl, (refl, (refl, (refl, (refl, tt))))) (omega arith)
name-IsWord reset_track_command = is_word (codes "rt") (refl, (refl, tt)) (omega arith)
name-IsWord quit_command = is_word (codes "q") (refl, tt) (omega arith)
name-IsWord start_randompath_command =
    is_word (codes "srp") (refl, (refl, (refl, tt))) (omega arith)
name-IsWord end_randompath_command = is_word (codes "erp") (refl, (refl, (refl, tt))) (omega arith)
name-IsWord end_pacman_command = is_word (codes "epm") (refl, (refl, (refl, tt))) (omega arith)
name-IsWord error_command = is_word (codes "x") (refl, tt) (omega arith)

Arguments-Ends : (c : CommandResult) (x : List ℕ) → Arguments c x → Ends x
Arguments-Ends (train_speed_command t s) x h = subst Ends (sym h.4) refl
Arguments-Ends (reverse_command t) x h = subst Ends (sym h.4) refl
Arguments-Ends (reverse_initial_command t) x h = subst Ends (sym h.4) refl
Arguments-Ends (switch_command i m) x h = subst Ends (sym h.4) refl
Arguments-Ends (lights_command t on) x h = subst Ends (sym h.4) refl
Arguments-Ends (path_command t s o w) x h = subst Ends (sym h.4) refl
Arguments-Ends (start_pacman_command p a b d) x h = subst Ends (sym h.4) refl
Arguments-Ends clear_command x h = subst Ends (sym h) tt
Arguments-Ends reset_track_command x h = subst Ends (sym h) tt
Arguments-Ends quit_command x h = subst Ends (sym h) tt
Arguments-Ends start_randompath_command x h = subst Ends (sym h) tt
Arguments-Ends end_randompath_command x h = subst Ends (sym h) tt
Arguments-Ends end_pacman_command x h = subst Ends (sym h) tt
Arguments-Ends error_command x h = subst Ends (sym h) tt

-- A command with its arguments in their ranges, typed as its name and its arguments with single spaces
-- between them, its numbers below 2 ^ 32 and with zeros in front or without, is parsed as that command.
pub parse_command-typed :
    (c : CommandResult) (x : List ℕ)
    → IsValid c
    → Arguments c x
    → parse_command (name_of c ++ x) ≡ c
unfolding parse_command
parse_command-typed c x v h =
    let n = name-IsWord c in
    ap (λ p. parse_named p.0 p.1)
      (get_str_word 0 (name_of c) x n.0 (omega (arith, n.1)) (Arguments-Ends c x h))
    ∙ parse_named_lem c x v h
