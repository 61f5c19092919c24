-- ===== src/User/Clock/Sleep.antt =====
-- A task that sleeps until a tick is answered at exactly that tick, whatever messages come between.
use mathlib.Core.List.{map, Memᴰ}
use mathlib.Core.List.Memᴰ
use choochoo_os.Base.{
  ℕ, ◌+◌, ◌%◌, ◌^◌, ◌≤◌, ◌<◌, ◌≡◌, ap, refl, ◌⊎◌, inl, inr, Bool, true, false, Bool-cases, leb,
  List, [], ◌∷◌, ◌++◌, arith,
}
use choochoo_os.User.Waiting.{take_all}
use choochoo_os.User.Clock.{
  ClockMessageType, clock_time, clock_delay, clock_delay_until, clock_tick, other, ClockRequest,
  ClockBufferRequest, Server, Reply, answer, is_due, buffer, handle, handle_type,
}

module _ {A : Type 0} where
  -- An item is on the side that its test says.
  take_all-Mem :
      (p : A → Bool) (x : A) (xs : List A)
      → Memᴰ x xs
      → ((p x ≡ true) × Memᴰ x (take_all p xs).0) ⊎ ((p x ≡ false) × Memᴰ x (take_all p xs).1)
  unfolding take_all
  take_all-Mem p x [] m = elim m [ ]
  take_all-Mem p x (a ∷ xs) (Memᴰ.head e) = elim (Bool-cases (p a)) [
    | inl h ↦ rw (e, h) (inl (refl, Memᴰ.head refl))
    | inr h ↦ rw (e, h) (inr (refl, Memᴰ.head refl))
  ]
  take_all-Mem p x (a ∷ xs) (Memᴰ.tail d) =
      let rest = take_all-Mem p x xs d in
      elim (Bool-cases (p a)) [
        | inl h ↦ rw h (elim rest [ inl (e, m) ↦ inl (e, Memᴰ.tail m) | inr em ↦ inr em ])
        | inr h ↦ rw h (elim rest [ inl em ↦ inl em | inr (e, m) ↦ inr (e, Memᴰ.tail m) ])
      ]

Mem-map : {A B : Type 0} (f : A → B) (x : A) (xs : List A) → Memᴰ x xs → Memᴰ (f x) (map f xs)
Mem-map f x [] m = elim m [ ]
Mem-map f x (a ∷ xs) (Memᴰ.head e) = Memᴰ.head (ap f e)
Mem-map f x (a ∷ xs) (Memᴰ.tail d) = Memᴰ.tail (Mem-map f x xs d)

-- Messages in the order in which the server receives them.
abbrev pub handle_all : List (ℕ × ClockRequest) → Server → Server × List Reply
handle_all [] s = (s, [])
handle_all ((from, q) ∷ ms) s =
    let (s1, out) = handle from q s in let (s2, rest) = handle_all ms s1 in (s2, out ++ rest)

abbrev is_tick : ClockMessageType → ℕ
is_tick clock_tick = 1
is_tick _ = 0

abbrev pub ticks_in : List (ℕ × ClockRequest) → ℕ
ticks_in [] = 0
ticks_in ((from, q) ∷ ms) = is_tick q.type + ticks_in ms

leb→le : (a b : ℕ) → leb a b ≡ true → a ≤ b
leb→le a b h = ground arith

leb→lt : (a b : ℕ) → leb a b ≡ false → b < a
leb→lt a b h = ground arith

-- A message leaves a sleeper in the list, or is the tick that the sleeper waits for and answers it.
abbrev SleepsOn : ClockBufferRequest → ℕ → Server × List Reply → Type 0
SleepsOn r tick (s', out) =
    (s'.tick_count ≡ tick)
    × (((tick < r.absolute_tick_delay) × Memᴰ r s'.clk_requests)
        ⊎ ((tick ≡ r.absolute_tick_delay) × Memᴰ (answer r.tid r.type tick) out))

handle_type-SleepsOn :
    (type : ClockMessageType) (from : ℕ) (q : ClockRequest) (s : Server) (r : ClockBufferRequest)
    → Memᴰ r s.clk_requests
    → s.tick_count < r.absolute_tick_delay
    → s.tick_count + is_tick type < 2 ^ 32
    → SleepsOn r (s.tick_count + is_tick type) (handle_type type from q s)
unfolding handle_type
handle_type-SleepsOn clock_time from q s r m lt room = (omega arith, inl (omega arith, m))
handle_type-SleepsOn clock_delay from q s r m lt room =
    (omega arith, inl (omega arith, Memᴰ.append_left _ m))
handle_type-SleepsOn clock_delay_until from q s r m lt room =
    (omega arith, inl (omega arith, Memᴰ.append_left _ m))
handle_type-SleepsOn other from q s r m lt room = (omega arith, inl (omega arith, m))
handle_type-SleepsOn clock_tick from q s r m lt room =
    let e : (s.tick_count + 1) % 2 ^ 32 ≡ s.tick_count + 1 = omega (arith, room) in
    let kept = take_all-Mem (is_due (s.tick_count + 1)) r s.clk_requests m in
    rw e (
      refl,
      elim kept [
        | inl (d, k) ↦ inr (
          omega (arith, leb→le r.absolute_tick_delay (s.tick_count + 1) d),
          Memᴰ.tail
              (Mem-map (λ (b : ClockBufferRequest). answer b.tid b.type (s.tick_count + 1)) r _ k),
        )
        | inr (d, k) ↦ inl (omega (arith, leb→lt r.absolute_tick_delay (s.tick_count + 1) d), k)
      ],
    )

handle-SleepsOn :
    (from : ℕ) (q : ClockRequest) (s : Server) (r : ClockBufferRequest)
    → Memᴰ r s.clk_requests
    → s.tick_count < r.absolute_tick_delay
    → s.tick_count + is_tick q.type < 2 ^ 32
    → SleepsOn r (s.tick_count + is_tick q.type) (handle from q s)
unfolding handle
handle-SleepsOn from q s r m lt room = handle_type-SleepsOn q.type from q s r m lt room

-- Over any sequence of messages, a sleeper whose tick comes is answered with it, and one whose tick
-- has not come is still in the list.
handle_all-SleepsOn :
    (ms : List (ℕ × ClockRequest)) (s : Server) (r : ClockBufferRequest)
    → Memᴰ r s.clk_requests
    → s.tick_count < r.absolute_tick_delay
    → s.tick_count + ticks_in ms < 2 ^ 32
    → let (s', out) = handle_all ms s in
      ((s.tick_count + ticks_in ms < r.absolute_tick_delay) × Memᴰ r s'.clk_requests)
      ⊎ ((r.absolute_tick_delay ≤ s.tick_count + ticks_in ms)
          × Memᴰ (answer r.tid r.type r.absolute_tick_delay) out)
handle_all-SleepsOn [] s r m lt room = inl (omega arith, m)
handle_all-SleepsOn ((from, q) ∷ ms) s r m lt room =
    let (s1, out) = handle from q s in
    let (e, one) = handle-SleepsOn from q s r m lt (omega arith) in
    elim one [
      | inl (lt1, m1) ↦ elim (handle_all-SleepsOn ms s1 r m1 (omega arith) (omega arith)) [
        | inl (before, k) ↦ inl (omega arith, k)
        | inr (reached, k) ↦ inr (omega arith, Memᴰ.append_right out k)
      ]
      | inr (now, k) ↦ inr (omega arith, Memᴰ.append_left {s = out} _ (rw (← now) k))
    ]

handle-delay :
    (from : ℕ) (q : ClockRequest) (s : Server)
    → q.type ≡ clock_delay
    → q.ticks + s.tick_count < 2 ^ 32
    → handle from q s ≡ (buffer from (s.tick_count + q.ticks) clock_delay s, [])
unfolding handle handle_type
handle-delay from q s e room =
    let w : (q.ticks + s.tick_count) % 2 ^ 32 ≡ s.tick_count + q.ticks = omega (arith, room) in
    ground (arith, e, w)

-- A task that asks for a delay of some ticks gets an answer with the count that many ticks later,
-- once so many ticks have come, whatever other messages the server handles before, between and after,
-- as long as the count does not wrap around.
pub delay_answered :
    (from : ℕ) (q : ClockRequest) (ms : List (ℕ × ClockRequest)) (s : Server)
    → q.type ≡ clock_delay
    → 0 < q.ticks
    → q.ticks ≤ ticks_in ms
    → s.tick_count + ticks_in ms < 2 ^ 32
    → Memᴰ (answer from clock_delay (s.tick_count + q.ticks)) (handle_all ((from, q) ∷ ms) s).1
delay_answered from q ms s e positive enough room =
    let r : ClockBufferRequest = record {
      tid = from;
      absolute_tick_delay = s.tick_count + q.ticks;
      type = clock_delay;
    } in
    let s1 = buffer from (s.tick_count + q.ticks) clock_delay s in
    let h = handle-delay from q s e (omega arith) in
    rw h
      (elim (handle_all-SleepsOn ms s1 r (Memᴰ.append_right s.clk_requests (Memᴰ.head refl))
        (omega arith) room) [ inl (before, _) ↦ absurd (omega arith) | inr (_, k) ↦ k ])
