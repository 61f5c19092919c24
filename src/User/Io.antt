-- ===== src/User/Io.antt =====
-- user/io-server/server.c and interface.h: the characters of one line, the Märklin box's or the
-- console's; io_marklin.c: the bytes of its commands.
mod Order
mod Pace
pub mod Commands
mod Tests
use mathlib.Core.List.{map}
use choochoo_os.Base.{
  ℕ, zero, suc, ◌+◌, ◌==◌, ◌&&◌, if◌then◌else◌, Bool, true, false, List, [], ◌∷◌, ◌++◌,
}
use choochoo_os.Base.Int.{ℤ, pos, negsuc, min_ℤ, pos_part}
use choochoo_os.ByteQueue.Defs
use choochoo_os.ByteQueue.Defs.{BQueue}

pub data Line : Type 0 where
  console marklin : Line

-- `other` stands for a number that is no type of request.
pub data IoRequestType : Type 0 where
  io_getc io_putc io_puts io_receive_event io_send_event other : IoRequestType

pub record IoRequest : Type 0 where
  pub type : IoRequestType
  pub ch : ℕ
  pub chs : ℕ → ℕ
  pub chs_len : ℤ

-- `ch` is the field `data`.
pub record IoResponse : Type 0 where
  pub type : IoRequestType
  pub ch : ℕ

abbrev pub puts_block_size : ℤ
puts_block_size = pos 100

-- `receive_q` is the queue of the line that interrupts fill.
pub record Server : Type 0 where
  pub clear_to_send : Bool
  pub getc_tasks : List ℕ
  pub putc_tasks : List ℕ
  pub receive_q : BQueue

abbrev pub start : BQueue → Server
start q = record { clear_to_send = true; getc_tasks = []; putc_tasks = []; receive_q = q }

pub data Output : Type 0 where
  reply : ℕ → IoResponse → Output
  uart_putc : ℕ → Output

abbrev pub answer : ℕ → IoRequestType → ℕ → Output
answer tid type ch = reply tid (record { type = type; ch = ch })

-- kern/rpi.c: the character, whether the queue was empty, and what is left of it.
unfoldable pub uart_getc_queued : BQueue → ℕ × Bool × BQueue
uart_getc_queued q =
    if Defs.is_empty q then (0, true, q) else (let (ch, q') = Defs.pop q in (ch, false, q'))

-- One round of the loop over the characters of IO_PUTS.
unfoldable pub put_char : ℕ → ℕ → Server → Server × List Output
put_char i c s =
    if i == 0 && s.clear_to_send
    then (record s { clear_to_send = false }, uart_putc c ∷ [])
    else (record s { putc_tasks = s.putc_tasks ++ c ∷ [] }, [])

-- The rounds from `i` on, `n` of them.
unfoldable pub puts_from : ℕ → ℕ → (ℕ → ℕ) → Server → Server × List Output
puts_from zero i chs s = (s, [])
puts_from (suc n) i chs s =
    let (s1, out) = put_char i (chs i) s in
    let (s2, rest) = puts_from n (suc i) chs s1 in (s2, out ++ rest)

unfoldable pub puts : IoRequest → Server → Server × List Output
puts q s = puts_from (pos_part (min_ℤ puts_block_size q.chs_len)) 0 q.chs s

unfoldable pub putc : ℕ → Server → Server × List Output
putc c s =
    if s.clear_to_send
    then (record s { clear_to_send = false }, uart_putc c ∷ [])
    else (record s { putc_tasks = s.putc_tasks ++ c ∷ [] }, [])

unfoldable pub getc : ℕ → Server → Server × List Output
getc from s =
    let (ch, is_buffer_empty, q) = uart_getc_queued s.receive_q in
    if is_buffer_empty
    then (record s { getc_tasks = s.getc_tasks ++ from ∷ []; receive_q = q }, [])
    else (record s { receive_q = q }, answer from io_getc ch ∷ [])

-- All tasks that wait in Getc are given the one character.
unfoldable pub receive_event : Server → Server × List Output
receive_event s =
    let (ch, is_buffer_empty, q) = uart_getc_queued s.receive_q in
    elim s.getc_tasks [
      | [] ↦ (s, [])
      | t ∷ ts ↦
          (record s { getc_tasks = []; receive_q = q }, map (λ tid. answer tid io_getc ch) (t ∷ ts))
    ]

abbrev pub is_nil : List ℕ → Bool
is_nil [] = true
is_nil (_ ∷ _) = false

-- The first `room` of the characters, which is as many as uart_try_putc takes.
unfoldable pub try_all : ℕ → List ℕ → List ℕ × List Output
try_all room [] = ([], [])
try_all zero (c ∷ cs) = (c ∷ cs, [])
try_all (suc room) (c ∷ cs) = let (left, out) = try_all room cs in (left, uart_putc c ∷ out)

unfoldable pub send_event : Line → ℕ → Server → Server × List Output
send_event marklin room s = elim s.putc_tasks [
  | [] ↦ (record s { clear_to_send = true }, [])
  | c ∷ cs ↦ (record s { putc_tasks = cs }, uart_putc c ∷ [])
]
send_event console room s =
    let (left, out) = try_all room s.putc_tasks in
    (record s { putc_tasks = left; clear_to_send = is_nil left }, out)

-- One request from the task `from`. `room` is how many characters the device takes at the time.
unfoldable pub handle_type :
    IoRequestType → Line → ℕ → ℕ → IoRequest → Server → Server × List Output
handle_type io_getc line room from q s = getc from s
handle_type io_putc line room from q s =
    let (s', out) = putc q.ch s in (s', out ++ answer from io_putc 0 ∷ [])
handle_type io_puts line room from q s =
    let (s', out) = puts q s in (s', out ++ answer from io_puts 0 ∷ [])
handle_type io_receive_event line room from q s =
    let (s', out) = receive_event s in (s', answer from io_receive_event 0 ∷ out)
handle_type io_send_event line room from q s =
    let (s', out) = send_event line room s in (s', answer from io_send_event 0 ∷ out)
handle_type other line room from q s = (s, [])

abbrev pub handle : Line → ℕ → ℕ → IoRequest → Server → Server × List Output
handle line room from q s = handle_type q.type line room from q s
