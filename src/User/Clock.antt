-- ===== src/User/Clock.antt =====
-- user/clock-server/server.c and interface.h: ticks, and tasks that sleep until a tick.
pub mod Ticks
pub mod Sleep
mod Tests
use mathlib.Core.List.{map}
use choochoo_os.Base.{ℕ, ◌+◌, ◌-◌, ◌%◌, ◌^◌, Bool, leb, List, [], ◌∷◌, ◌++◌}
use choochoo_os.User.Waiting.{take_all}

-- `other` stands for a number that is no type of message.
pub data ClockMessageType : Type 0 where
  clock_time clock_delay clock_delay_until clock_tick other : ClockMessageType

-- `ticks` is the bit pattern of the source's `int`: the server only adds it to a `uint32_t`.
pub record ClockRequest : Type 0 where
  pub type : ClockMessageType
  pub ticks : ℕ

pub record ClockResponse : Type 0 where
  pub type : ClockMessageType
  pub ticks : ℕ

pub record ClockBufferRequest : Type 0 where
  pub tid : ℕ
  pub absolute_tick_delay : ℕ
  pub type : ClockMessageType

pub record Server : Type 0 where
  pub clk_requests : List ClockBufferRequest
  pub tick_count : ℕ

abbrev pub start : Server
start = record { clk_requests = []; tick_count = 0 }

pub record Reply : Type 0 where
  pub tid : ℕ
  pub response : ClockResponse

abbrev pub answer : ℕ → ClockMessageType → ℕ → Reply
answer tid type ticks = record { tid = tid; response = record { type = type; ticks = ticks } }

abbrev pub is_due : ℕ → ClockBufferRequest → Bool
is_due tick q = leb q.absolute_tick_delay tick

abbrev pub buffer : ℕ → ℕ → ClockMessageType → Server → Server
buffer from tick type s = record s {
  clk_requests =
      s.clk_requests ++ record { tid = from; absolute_tick_delay = tick; type = type } ∷ [];
}

-- One message from the task `from`, by its type. A sleeper buffered here is of one of the two types
-- that the walk answers.
unfoldable pub handle_type : ClockMessageType → ℕ → ClockRequest → Server → Server × List Reply
handle_type clock_time from q s = (s, answer from clock_time s.tick_count ∷ [])
handle_type clock_delay from q s =
    (buffer from ((q.ticks + s.tick_count) % 2 ^ 32) clock_delay s, [])
handle_type clock_delay_until from q s = (buffer from (q.ticks % 2 ^ 32) clock_delay_until s, [])
handle_type clock_tick from q s =
    let tick = (s.tick_count + 1) % 2 ^ 32 in
    let (due, asleep) = take_all (is_due tick) s.clk_requests in
    (
      record { clk_requests = asleep; tick_count = tick },
      answer from clock_tick tick ∷ map (λ r. answer r.tid r.type tick) due,
    )
handle_type other from q s = (s, [])

unfoldable pub handle : ℕ → ClockRequest → Server → Server × List Reply
unfolding handle_type
handle from q s = handle_type q.type from q s
