-- ===== src/User/Clock/Tests.antt =====
-- Runs of the clock server.
use mathlib.Core.List.{Memᴰ}
use choochoo_os.Base.{◌+◌, refl, [], ◌∷◌, arith}
use choochoo_os.User.Clock.{clock_time, clock_delay, clock_tick, ClockRequest, Server, answer}
use choochoo_os.User.Clock.Sleep.{handle_all, delay_answered}

-- Task 9 sleeps until tick 101, task 8 until tick 200.
abbrev two_asleep : Server
two_asleep = record {
  clk_requests =
      record { tid = 9; absolute_tick_delay = 101; type = clock_delay }
      ∷ record { tid = 8; absolute_tick_delay = 200; type = clock_delay }
      ∷ [];
  tick_count = 100;
}

abbrev tick : ClockRequest
tick = record { type = clock_tick; ticks = 0 }

abbrev delay_2 : ClockRequest
delay_2 = record { type = clock_delay; ticks = 2 }

abbrev time : ClockRequest
time = record { type = clock_time; ticks = 0 }

delay_answered_example :
    Memᴰ
      (answer 5 clock_delay (100 + 2))
      (handle_all ((5, delay_2) ∷ (2, tick) ∷ (6, time) ∷ (2, tick) ∷ []) two_asleep).1
delay_answered_example =
    delay_answered 5 delay_2 ((2, tick) ∷ (6, time) ∷ (2, tick) ∷ []) two_asleep refl (omega arith)
      (omega arith) (omega arith)
