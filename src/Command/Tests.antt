-- ===== src/Command/Tests.antt =====
-- Commands as they are typed.
use choochoo_os.Base.{◌≡◌, refl, inl, inr, codes, is_digit, is_alnum, is_space, arith}
use choochoo_os.Base.Int.{negsuc}
use choochoo_os.Digits.Print.{read}
use choochoo_os.Command.{
  CommandResult, path_command, train_speed_command, parse_command, parse_named, parse_tr, outside,
  next_int, skip_whitespace, get_i, get_str,
}
use choochoo_os.Command.Ranges.{IsValid, Bounded, parse_command-Bounded}
use choochoo_os.Command.Typed.{Arguments, parse_command-typed}

-- Extra spaces and other characters do not matter.
tr-run : parse_command (codes "t.r   24  010 ") ≡ train_speed_command 24 10
unfolding parse_command parse_named parse_tr outside next_int skip_whitespace get_i get_str is_digit
    is_alnum is_space
tr-run = refl

-- A number is computed modulo 2 ^ 32.
tr_wrapped : parse_command (codes "tr 4294967320 10") ≡ train_speed_command 24 10
unfolding parse_command parse_named parse_tr outside next_int skip_whitespace get_i get_str is_digit
    is_alnum is_space
tr_wrapped = refl

parse_command-Bounded_example : Bounded (parse_command (codes "path 24 10 C12 -30"))
parse_command-Bounded_example = parse_command-Bounded (codes "path 24 10 C12 -30")

-- To a sensor, stopping 30 mm in front of it.
abbrev to_sensor : CommandResult
to_sensor = path_command 24 10 (negsuc 29) (codes "C12")

to_sensor-IsValid : IsValid to_sensor
unfolding is_alnum
to_sensor-IsValid = ((omega arith, omega arith), (refl, (refl, (refl, tt))))

to_sensor-Arguments : Arguments to_sensor (codes " 24 010 C12 -30")
unfolding read is_alnum
to_sensor-Arguments = (
  codes "24",
  codes " 010 C12 -30",
  (λ e. absurd (ground arith), refl, omega arith),
  refl,
  refl,
  (
    codes "010",
    codes " C12 -30",
    (λ e. absurd (ground arith), refl, omega arith),
    refl,
    refl,
    (
      codes " -30",
      (λ e. absurd (ground arith), (refl, (refl, (refl, tt))), omega arith),
      refl,
      refl,
      (
        codes "-30",
        inr (inl (refl, 29, (λ e. absurd (ground arith), refl, omega arith), omega arith, refl)),
        refl,
      ),
    ),
  ),
)

parse_command-typed_example : parse_command (codes "path 24 010 C12 -30") ≡ to_sensor
parse_command-typed_example =
    parse_command-typed to_sensor (codes " 24 010 C12 -30") to_sensor-IsValid to_sensor-Arguments
