-- ===== src/User/Io/Tests.antt =====
-- Runs of the server of the Märklin line.
use choochoo_os.Base.{◌≡◌, ◌≤◌, refl, ℕ, List, [], ◌∷◌, ◌++◌, length}
use choochoo_os.Base.Int.{pos}
use choochoo_os.ByteQueue.Defs.{new_byte_queue}
use choochoo_os.User.Switch.{switch_mode_c}
use choochoo_os.User.Io.{
  marklin, IoRequest, io_send_event, Server, start, handle_type, puts, puts_from, put_char, putc,
  send_event,
}
use choochoo_os.User.Io.Commands.{io_marklin_set_switch, io_marklin_go}
use choochoo_os.User.Io.Order.{sent, handle_all, IsIdle, characters_in_order}
use choochoo_os.User.Io.Pace.{marklin_paced}

abbrev clear : IoRequest
clear = record { type = io_send_event; ch = 0; chs = λ _. 0; chs_len = pos 0 }

-- Task 7 sets turnout 5, the box takes two of the three bytes, then task 8 starts it.
abbrev messages : List (ℕ × ℕ × IoRequest)
messages =
    (0, 7, io_marklin_set_switch 5 switch_mode_c) ∷ (0, 3, clear) ∷ (0, 8, io_marklin_go) ∷ []

abbrev idle : Server
idle = start new_byte_queue

messages-run : sent (handle_all marklin messages idle).1 ≡ 34 ∷ 5 ∷ []
unfolding handle_type puts puts_from put_char putc send_event
messages-run = refl

characters_in_order_example :
    let (s', out) = handle_all marklin messages idle in
    ((34 ∷ 5 ∷ 32 ∷ 96 ∷ 96 ∷ []) ≡ sent out ++ s'.putc_tasks) × IsIdle s'
characters_in_order_example = characters_in_order marklin messages idle (λ _. refl)

marklin_paced_example : length (sent (handle_all marklin messages idle).1) ≤ 2
marklin_paced_example = marklin_paced messages idle
