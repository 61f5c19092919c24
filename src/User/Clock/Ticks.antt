-- ===== src/User/Clock/Ticks.antt =====
-- Sleepers are woken at their tick.
use mathlib.Core.List.{map}
use mathlib.Core.Path.{subst, sym}
use choochoo_os.Base.{ℕ, ◌+◌, ◌%◌, ◌^◌, ◌≡◌, refl, List, ◌∷◌}
use choochoo_os.User.Waiting.{take_all, take_all-Parted, Parted}
use choochoo_os.User.Clock.{
  clock_tick, ClockRequest, ClockBufferRequest, Server, Reply, answer, is_due, handle, handle_type,
}

abbrev pub TickDone : ℕ → Server → Server → List Reply → Type 0
TickDone from s s' out =
    (s'.tick_count ≡ (s.tick_count + 1) % 2 ^ 32)
    × ((due : List ClockBufferRequest) × (out
          ≡ answer from clock_tick s'.tick_count ∷ map (λ r. answer r.tid r.type s'.tick_count) due)
        × Parted (is_due s'.tick_count) s.clk_requests (due, s'.clk_requests))

tick-Parted :
    (from : ℕ) (q : ClockRequest) (s : Server)
    → let (s', out) = handle_type clock_tick from q s in TickDone from s s' out
unfolding handle_type
tick-Parted from q s =
    let tick = (s.tick_count + 1) % 2 ^ 32 in
    (
      refl,
      (
        (take_all (is_due tick) s.clk_requests).0,
        refl,
        take_all-Parted (is_due tick) s.clk_requests,
      ),
    )

-- A tick is answered to the notifier with the new count; then those who sleep until this tick or an
-- earlier one are answered with it, each once, and leave the list; no one who stays is due.
pub handle-Parted :
    (from : ℕ) (q : ClockRequest) (s : Server)
    → q.type ≡ clock_tick
    → let (s', out) = handle from q s in TickDone from s s' out
unfolding handle
handle-Parted from q s e =
    subst (λ t. let (s', out) = handle_type t from q s in TickDone from s s' out) (sym e)
      (tick-Parted from q s)
