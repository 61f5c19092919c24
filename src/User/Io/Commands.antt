-- ===== src/User/Io/Commands.antt =====
-- user/io-server/interface.c and io_marklin.c: the requests of Putc and Puts, and the bytes of the
-- commands to the Märklin box.
use choochoo_os.Base.{
  ℕ, suc, ◌+◌, ◌%◌, ◌≤◌, ◌<◌, lt→ltb, ◌≡◌, refl, ap, ◌∙◌, ltb, if◌then◌else◌, List, [], ◌∷◌, length,
  arith,
}
use choochoo_os.Base.Int.{pos, min_ℤ, pos_part}
use choochoo_os.User.Io.{IoRequest, io_putc, io_puts, puts_block_size}
use choochoo_os.User.Io.Order.{slice, put_by}
use choochoo_os.User.Switch.{SwitchMode, mode_code}
use choochoo_os.User.Track.{get_or}

abbrev pub putc_request : ℕ → IoRequest
putc_request ch = record { type = io_putc; ch = ch; chs = λ _. 0; chs_len = pos 0 }

-- The block is copied into an array of zeros, 100 bytes at most.
abbrev pub puts_request : List ℕ → IoRequest
puts_request cs = record {
  type = io_puts;
  ch = 0;
  chs = λ i. if ltb i 100 then get_or 0 cs i else 0;
  chs_len = pos (length cs);
}

-- A `char` holds the low 8 bits.
abbrev pub char : ℕ → ℕ
char n = n % 256

abbrev pub io_marklin_init : IoRequest
io_marklin_init = putc_request 192

abbrev pub io_marklin_set_train : ℕ → ℕ → IoRequest
io_marklin_set_train train speed = puts_request (char speed ∷ char train ∷ [])

abbrev pub io_marklin_reverse_train_0 : ℕ → ℕ → ℕ → IoRequest
io_marklin_reverse_train_0 train speed zero_speed =
    puts_request (char zero_speed ∷ char train ∷ char speed ∷ char train ∷ [])

abbrev pub io_marklin_set_switch : ℕ → SwitchMode → IoRequest
io_marklin_set_switch switch_id mode =
    puts_request (char (mode_code mode) ∷ char switch_id ∷ 32 ∷ [])

abbrev pub io_marklin_dump_sensors : ℕ → IoRequest
io_marklin_dump_sensors count = putc_request (char (128 + count))

abbrev pub io_marklin_get_sensor : ℕ → IoRequest
io_marklin_get_sensor index = putc_request (char (192 + index))

abbrev pub io_marklin_go : IoRequest
io_marklin_go = puts_request (96 ∷ 96 ∷ [])

abbrev pub io_marklin_stop : IoRequest
io_marklin_stop = puts_request (97 ∷ 97 ∷ [])

slice-get_or :
    (cs : List ℕ) (chs : ℕ → ℕ) (i : ℕ)
    → ((j : ℕ) → j < length cs → chs (i + j) ≡ get_or 0 cs j)
    → slice (length cs) i chs ≡ cs
slice-get_or [] chs i h = refl
slice-get_or (c ∷ cs) chs i h =
    ap (λ x. x ∷ slice (length cs) (suc i) chs) (ap chs (omega arith) ∙ h 0 (omega arith))
    ∙ ap (λ l. c ∷ l)
        (slice-get_or cs chs (suc i) (λ j l. ap chs (omega arith) ∙ h (suc j) (omega arith)))

-- A string of at most 100 characters is put whole.
pub put_by-puts_request : (cs : List ℕ) → length cs ≤ 100 → put_by (puts_request cs) ≡ cs
put_by-puts_request cs h =
    ap (λ n. slice n 0 (puts_request cs).chs) (shorter (length cs) h)
    ∙ slice-get_or cs (puts_request cs).chs 0 (λ j l.
      ap (puts_request cs).chs (omega arith)
      ∙ ap (λ b. if b then get_or 0 cs j else 0) (lt→ltb j 100 (omega arith)))
  where
    shorter : (n : ℕ) → n ≤ 100 → pos_part (min_ℤ puts_block_size (pos n)) ≡ n
    shorter n l = ground arith
