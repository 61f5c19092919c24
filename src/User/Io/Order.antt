-- ===== src/User/Io/Order.antt =====
-- user/io-server/server.c: the characters leave in the order in which they were put.
use mathlib.Core.List.{map}
use choochoo_os.Base.{
  ℕ, zero, suc, ◌≡◌, refl, ap, ◌∙◌, sym, true, false, inl, inr, List, [], ◌∷◌, ◌++◌, append_assoc,
  append-nil, arith, ◌⊎◌,
}
use choochoo_os.Base.Int.{min_ℤ, pos_part}
use choochoo_os.User.Io.{
  Line, marklin, console, IoRequestType, io_getc, io_putc, io_puts, io_receive_event, io_send_event,
  other, IoRequest, Server, Output, reply, uart_putc, answer, put_char, puts_from, puts, putc, getc,
  receive_event, try_all, send_event, handle_type, handle, uart_getc_queued, puts_block_size,
  is_nil,
}

-- The characters that go to the device.
abbrev pub sent : List Output → List ℕ
sent [] = []
sent (uart_putc c ∷ out) = c ∷ sent out
sent (reply _ _ ∷ out) = sent out

pub sent-append : (a b : List Output) → sent (a ++ b) ≡ sent a ++ sent b
sent-append [] b = refl
sent-append (uart_putc c ∷ a) b = ap (λ l. c ∷ l) (sent-append a b)
sent-append (reply _ _ ∷ a) b = sent-append a b

-- The characters `chs i`, `n` of them.
abbrev pub slice : ℕ → ℕ → (ℕ → ℕ) → List ℕ
slice zero i chs = []
slice (suc n) i chs = chs i ∷ slice n (suc i) chs

-- The characters that a request puts: of a string 100 at most.
abbrev put_by_type : IoRequestType → IoRequest → List ℕ
put_by_type io_putc q = q.ch ∷ []
put_by_type io_puts q = slice (pos_part (min_ℤ puts_block_size q.chs_len)) 0 q.chs
put_by_type _ q = []

abbrev pub put_by : IoRequest → List ℕ
put_by q = put_by_type q.type q

-- While the line is clear no character waits.
abbrev pub IsIdle : Server → Type 0
IsIdle s = s.clear_to_send ≡ true → s.putc_tasks ≡ []

-- A step that puts the characters `cs` behind those that wait.
abbrev Puts : List ℕ → Server → Server × List Output → Type 0
Puts cs s (s', out) = (s.putc_tasks ++ cs ≡ sent out ++ s'.putc_tasks) × IsIdle s'

-- Behind the first character of a string the line is not clear.
put_char-Puts :
    (i c : ℕ) (s : Server)
    → IsIdle s
    → (i ≡ 0) ⊎ (s.clear_to_send ≡ false)
    → Puts (c ∷ []) s (put_char i c s) × ((put_char i c s).0.clear_to_send ≡ false)
unfolding put_char
put_char-Puts i c s h k = ground (arith, append-nil s.putc_tasks)

putc-Puts : (c : ℕ) (s : Server) → IsIdle s → Puts (c ∷ []) s (putc c s)
unfolding putc
putc-Puts c s h = ground (arith, append-nil s.putc_tasks)

Puts-steps :
    (c : List ℕ) (cs : List ℕ) (s : Server) (one two : Server × List Output)
    → Puts c s one
    → Puts cs one.0 two
    → Puts (c ++ cs) s (two.0, one.1 ++ two.1)
Puts-steps c cs s one two h k = (
  sym (append_assoc s.putc_tasks c cs)
      ∙ ap (λ l. l ++ cs) h.0
      ∙ append_assoc (sent one.1) one.0.putc_tasks cs
      ∙ ap (λ l. sent one.1 ++ l) k.0
      ∙ sym (append_assoc (sent one.1) (sent two.1) two.0.putc_tasks)
      ∙ ap (λ l. l ++ two.0.putc_tasks) (sym (sent-append one.1 two.1)),
  k.1,
)

puts_from-Puts :
    (n i : ℕ) (chs : ℕ → ℕ) (s : Server)
    → IsIdle s
    → (i ≡ 0) ⊎ (s.clear_to_send ≡ false)
    → Puts (slice n i chs) s (puts_from n i chs s)
unfolding puts_from
puts_from-Puts zero i chs s h k = (append-nil s.putc_tasks, h)
puts_from-Puts (suc n) i chs s h k =
    let one = put_char-Puts i (chs i) s h k in
    let s1 = (put_char i (chs i) s).0 in
    Puts-steps (chs i ∷ []) (slice n (suc i) chs) s (put_char i (chs i) s)
      (puts_from n (suc i) chs s1) one.0 (puts_from-Puts n (suc i) chs s1 one.0.1 (inr one.1))

try_all-sent : (room : ℕ) (cs : List ℕ) → cs ≡ sent (try_all room cs).1 ++ (try_all room cs).0
unfolding try_all
try_all-sent zero [] = refl
try_all-sent (suc room) [] = refl
try_all-sent zero (c ∷ cs) = refl
try_all-sent (suc room) (c ∷ cs) = ap (λ l. c ∷ l) (try_all-sent room cs)

is_nil→nil : (xs : List ℕ) → is_nil xs ≡ true → xs ≡ []
is_nil→nil [] h = refl
is_nil→nil (x ∷ xs) h = absurd (ground arith)

send_event-Puts :
    (line : Line) (room : ℕ) (s : Server) → IsIdle s → Puts [] s (send_event line room s)
unfolding send_event
send_event-Puts marklin room s h = ground (arith, append-nil s.putc_tasks)
send_event-Puts console room s h = (
  append-nil s.putc_tasks ∙ try_all-sent room s.putc_tasks,
  is_nil→nil (try_all room s.putc_tasks).0,
)

getc-Puts : (from : ℕ) (s : Server) → IsIdle s → Puts [] s (getc from s)
unfolding getc
getc-Puts from s h = ground (arith, append-nil s.putc_tasks)

pub sent-map : (ch : ℕ) (ts : List ℕ) → sent (map (λ tid. answer tid io_getc ch) ts) ≡ []
sent-map ch [] = refl
sent-map ch (t ∷ ts) = sent-map ch ts

receive_event-Puts : (s : Server) → IsIdle s → Puts [] s (receive_event s)
unfolding receive_event
receive_event-Puts s h =
    ground (arith, append-nil s.putc_tasks, sent-map (uart_getc_queued s.receive_q).0 s.getc_tasks)

Puts-reply :
    (cs : List ℕ) (s : Server) (r : Server × List Output) (from : ℕ) (type : IoRequestType)
    → Puts cs s r
    → Puts cs s (r.0, r.1 ++ answer from type 0 ∷ [])
Puts-reply cs s r from type h = (
  h.0
      ∙ ap (λ l. l ++ r.0.putc_tasks)
          (sym (sent-append r.1 (answer from type 0 ∷ []) ∙ append-nil (sent r.1))),
  h.1,
)

handle_type-Puts :
    (type : IoRequestType) (line : Line) (room from : ℕ) (q : IoRequest) (s : Server)
    → IsIdle s
    → Puts (put_by_type type q) s (handle_type type line room from q s)
unfolding handle_type puts
handle_type-Puts io_getc line room from q s h = getc-Puts from s h
handle_type-Puts io_putc line room from q s h =
    Puts-reply (q.ch ∷ []) s (putc q.ch s) from io_putc (putc-Puts q.ch s h)
handle_type-Puts io_puts line room from q s h =
    let n = pos_part (min_ℤ puts_block_size q.chs_len) in
    Puts-reply (slice n 0 q.chs) s (puts_from n 0 q.chs s) from io_puts
      (puts_from-Puts n 0 q.chs s h (inl refl))
handle_type-Puts io_receive_event line room from q s h = receive_event-Puts s h
handle_type-Puts io_send_event line room from q s h = send_event-Puts line room s h
handle_type-Puts other line room from q s h = (append-nil s.putc_tasks, h)

-- Requests in the order in which the server receives them, each with its sender and with how many
-- characters the device takes at the time.
abbrev pub handle_all : Line → List (ℕ × ℕ × IoRequest) → Server → Server × List Output
handle_all line [] s = (s, [])
handle_all line ((room, from, q) ∷ ms) s =
    let (s1, out) = handle line room from q s in
    let (s2, rest) = handle_all line ms s1 in (s2, out ++ rest)

abbrev pub put_by_all : List (ℕ × ℕ × IoRequest) → List ℕ
put_by_all [] = []
put_by_all ((room, from, q) ∷ ms) = put_by q ++ put_by_all ms

-- From a state in which no character waits while the line is clear, on either line and under any
-- sequence of requests, the characters that were waiting and those that the requests put (of a string
-- 100 at most) are, in that order, those that the device was given followed by those that still wait;
-- and again no character waits while the line is clear.
pub characters_in_order :
    (line : Line) (ms : List (ℕ × ℕ × IoRequest)) (s : Server)
    → IsIdle s
    → let (s', out) = handle_all line ms s in
      (s.putc_tasks ++ put_by_all ms ≡ sent out ++ s'.putc_tasks) × IsIdle s'
characters_in_order line [] s h = (append-nil s.putc_tasks, h)
characters_in_order line ((room, from, q) ∷ ms) s h =
    let one = handle line room from q s in
    let k = handle_type-Puts q.type line room from q s h in
    Puts-steps (put_by q) (put_by_all ms) s one (handle_all line ms one.0) k
      (characters_in_order line ms one.0 k.1)
