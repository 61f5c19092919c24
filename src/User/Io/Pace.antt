-- ===== src/User/Io/Pace.antt =====
-- user/io-server/server.c: how often the Märklin box is given a character.
use choochoo_os.Base.{
  ℕ, zero, suc, ◌+◌, ◌≤◌, ◌≡◌, ap, ◌∙◌, if◌then◌else◌, List, [], ◌∷◌, ◌++◌, arith, length,
  length-append,
}
use choochoo_os.User.Io.{
  marklin, IoRequestType, io_getc, io_putc, io_puts, io_receive_event, io_send_event, other,
  IoRequest, Server, Output, answer, put_char, puts_from, puts, putc, getc, receive_event,
  send_event, handle_type, handle, uart_getc_queued, puts_block_size,
}
use choochoo_os.Base.Int.{min_ℤ, pos_part}
use choochoo_os.User.Io.Order.{sent, sent-append, sent-map, handle_all}

-- The characters that may still be sent before the box signals again: one if the line is clear.
abbrev credit : Server → ℕ
credit s = if s.clear_to_send then 1 else 0

abbrev signals_of : IoRequestType → ℕ
signals_of io_send_event = 1
signals_of _ = 0

-- How many of the requests say that the line is clear to send.
abbrev pub signals : List (ℕ × ℕ × IoRequest) → ℕ
signals [] = 0
signals ((room, from, q) ∷ ms) = signals_of q.type + signals ms

-- A step that gives the box no character but for a credit.
abbrev Paced : ℕ → Server → Server × List Output → Type 0
Paced n s (s', out) = length (sent out) + credit s' ≤ credit s + n

put_char-Paced : (i c : ℕ) (s : Server) → Paced 0 s (put_char i c s)
unfolding put_char
put_char-Paced i c s = ground arith

length-sent_append :
    (a b : List Output) → length (sent (a ++ b)) ≡ length (sent a) + length (sent b)
length-sent_append a b = ap length (sent-append a b) ∙ length-append (sent a) (sent b)

puts_from-Paced : (n i : ℕ) (chs : ℕ → ℕ) (s : Server) → Paced 0 s (puts_from n i chs s)
unfolding puts_from
puts_from-Paced zero i chs s = omega arith
puts_from-Paced (suc n) i chs s =
    let one = put_char i (chs i) s in
    let two = puts_from n (suc i) chs one.0 in
    omega (
      arith,
      put_char-Paced i (chs i) s,
      puts_from-Paced n (suc i) chs one.0,
      length-sent_append one.1 two.1,
    )

handle_type-Paced :
    (type : IoRequestType) (room from : ℕ) (q : IoRequest) (s : Server)
    → Paced (signals_of type) s (handle_type type marklin room from q s)
unfolding handle_type puts putc getc receive_event send_event
handle_type-Paced io_getc room from q s = ground arith
handle_type-Paced io_putc room from q s = ground arith
handle_type-Paced io_puts room from q s =
    let n = pos_part (min_ℤ puts_block_size q.chs_len) in
    let r = puts_from n 0 q.chs s in
    omega (arith, puts_from-Paced n 0 q.chs s, length-sent_append r.1 (answer from io_puts 0 ∷ []))
handle_type-Paced io_receive_event room from q s =
    ground (arith, sent-map (uart_getc_queued s.receive_q).0 s.getc_tasks)
handle_type-Paced io_send_event room from q s = ground arith
handle_type-Paced other room from q s = omega arith

handle_all-Paced :
    (ms : List (ℕ × ℕ × IoRequest)) (s : Server) → Paced (signals ms) s (handle_all marklin ms s)
handle_all-Paced [] s = omega arith
handle_all-Paced ((room, from, q) ∷ ms) s =
    let one = handle marklin room from q s in
    let two = handle_all marklin ms one.0 in
    omega (
      arith,
      handle_type-Paced q.type room from q s,
      handle_all-Paced ms one.0,
      length-sent_append one.1 two.1,
    )

-- Under any sequence of requests the Märklin line is given at most one character for each signal that
-- it is clear to send, and one more if it was clear at the start.
pub marklin_paced :
    (ms : List (ℕ × ℕ × IoRequest)) (s : Server)
    → length (sent (handle_all marklin ms s).1) ≤ (if s.clear_to_send then 1 else 0) + signals ms
marklin_paced ms s = omega (arith, handle_all-Paced ms s)
