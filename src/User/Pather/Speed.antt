-- ===== src/User/Pather/Speed.antt =====
-- user/pathfinder-server/server.c: PatherSimplePath drives as fast as its path lets the train stop.
use mathlib.Core.Path.{subst}
use mathlib.Core.Option.{some-injective}
use choochoo_os.Base.{
  ℕ, zero, suc, ◌<◌, ◌≤◌, ◌≡◌, refl, ◌∙◌, sym, ◌⊎◌, inl, inr, true, false, Bool-cases, ◌≢◌, ◌==◌,
  ==→eq, ==→ne, Option, none, some, ◌>>=◌, List, arith,
}
use choochoo_os.Base.Int.{ℤ, pos, ◌-ℤ◌, to_int, to_u32}
use choochoo_os.User.Track.{TrackNode, TrackEdge}
use choochoo_os.User.TrainData.{
  elem, index_from, get_train_index, get_speed_index, train_data_stop_dist,
}
use choochoo_os.User.TrainData.Measured.{train_data_speeds}
use choochoo_os.User.Pather.{waiting_from, is_ahead, Plan, plan_at, plan_from, plan, rounds}
use choochoo_os.User.Pather.Arrives.Planned.{plan_at-some, few_trains}
use choochoo_os.User.Pather.Stopping.{LastEnough, waiting_from-LastEnough}

module _ (track : ℕ → TrackNode) (first : ℕ) (path : List TrackEdge) (train : ℕ) (offset : ℤ) where
  -- The plan for one speed: it waits for the last sensor from which the train can stop.
  abbrev pub PlanFor : ℕ → Plan → Type 0
  PlanFor idx p =
      (dist : ℕ) × (elem train_data_speeds idx ≡ some p.train_speed)
      × (train_data_stop_dist train p.train_speed ≡ some dist)
      × LastEnough track (to_int (to_u32 (pos dist -ℤ offset))) path p.waiting_sensor

  -- The plan for the greatest index up to `n` at which the sensor is ahead, or for the index 0.
  abbrev pub Fastest : ℕ → Plan → Type 0
  Fastest n p =
      (idx : ℕ) × (idx ≤ n)
      × PlanFor idx p
      × ((is_ahead first p.waiting_sensor ≡ true) ⊎ (idx ≡ 0))
      × ((m : ℕ) (q : Plan)
          → idx < m
          → m ≤ n
          → plan_at track path train offset m ≡ some q
          → is_ahead first q.waiting_sensor ≡ false)

  plan_at-PlanFor :
      (idx : ℕ) (p : Plan) → plan_at track path train offset idx ≡ some p → PlanFor idx p
  unfolding plan_at
  plan_at-PlanFor idx p h = by_speed (elem train_data_speeds idx) refl h
    where
      made : ℕ → ℕ → Plan
      made speed dist = record {
        train_speed = speed;
        waiting_sensor = waiting_from track (to_int (to_u32 (pos dist -ℤ offset))) path;
      }

      by_dist :
          (speed : ℕ)
          → elem train_data_speeds idx ≡ some speed
          → (o : Option ℕ) → train_data_stop_dist train speed ≡ o
          → (o >>= λ dist. some (made speed dist)) ≡ some p
          → PlanFor idx p
      by_dist speed s none e g = absurd (ground arith)
      by_dist speed s (some dist) e g =
          subst (PlanFor idx) (some-injective _ _ g)
            (dist, s, e, waiting_from-LastEnough track (to_int (to_u32 (pos dist -ℤ offset))) path)

      by_speed :
          (o : Option ℕ)
          → elem train_data_speeds idx ≡ o
          → (o >>= λ speed. train_data_stop_dist train speed >>= λ dist. some (made speed dist))
            ≡ some p
          → PlanFor idx p
      by_speed none e g = absurd (ground arith)
      by_speed (some speed) e g = by_dist speed e (train_data_stop_dist train speed) refl g

  ahead_here :
      (n : ℕ) (q : Plan)
      → plan_at track path train offset n ≡ some q
      → (is_ahead first q.waiting_sensor ≡ true) ⊎ (n ≡ 0)
      → Fastest n q
  ahead_here n q e a =
      (n, omega arith, plan_at-PlanFor n q e, a, λ m q' lt le e'. absurd (omega arith))

  slower :
      (n : ℕ) (q r : Plan)
      → plan_at track path train offset (suc n) ≡ some q
      → is_ahead first q.waiting_sensor ≡ false
      → Fastest n r
      → Fastest (suc n) r
  slower n q r e a (idx, le, for, end, above) = (idx, omega arith, for, end, above')
    where
      top :
          (m : ℕ) (q' : Plan)
          → m ≡ suc n
          → plan_at track path train offset m ≡ some q'
          → is_ahead first q'.waiting_sensor ≡ false
      top m q' k e' =
          subst (λ (v : Plan). is_ahead first v.waiting_sensor ≡ false)
            (some-injective _ _
              (sym e ∙ subst (λ x. plan_at track path train offset x ≡ some q') k e'))
            a

      below_top : (m : ℕ) → m ≤ suc n → m ≢ suc n → m ≤ n
      below_top m h k = ground arith

      above' :
          (m : ℕ) (q' : Plan)
          → idx < m
          → m ≤ suc n
          → plan_at track path train offset m ≡ some q'
          → is_ahead first q'.waiting_sensor ≡ false
      above' m q' lt le' e' = elim (Bool-cases (m == suc n)) [
        | inl k ↦ top m q' (==→eq m (suc n) k) e'
        | inr k ↦ above m q' lt (below_top m le' (==→ne m (suc n) k)) e'
      ]

  module _ (i : ℕ) (known : get_train_index train ≡ some i) (few : i < 6) where
    plan_from-Fastest :
        (n : ℕ) (p : Plan)
        → n < 12
        → (q : Plan) × (plan_from track first path train offset (suc n) p ≡ some q) × Fastest n q
    unfolding plan_from
    plan_from-Fastest zero p h =
        let q = plan_at-some track path train i offset zero known few h in
        elim (Bool-cases (is_ahead first q.0.waiting_sensor)) [
          | inl a ↦ (q.0, rw (q.1, a) refl, ahead_here zero q.0 q.1 (inl a))
          | inr a ↦ (q.0, rw (q.1, a) refl, ahead_here zero q.0 q.1 (inr refl))
        ]
    plan_from-Fastest (suc n) p h =
        let q = plan_at-some track path train i offset (suc n) known few h in
        elim (Bool-cases (is_ahead first q.0.waiting_sensor)) [
          | inl a ↦ (q.0, rw (q.1, a) refl, ahead_here (suc n) q.0 q.1 (inl a))
          | inr a ↦
              let r = plan_from-Fastest n q.0 (omega arith) in
              (r.0, rw (q.1, a) r.1, slower n q.0 r.0 q.1 a r.2)
        ]

few_speeds : (speed n : ℕ) → get_speed_index speed ≡ some n → n < 12
unfolding get_speed_index index_from
few_speeds speed n h = ground arith

-- For a train and a speed with data, PatherSimplePath chooses a speed of the table that is not above the
-- one asked for, and waits for the last sensor of its path from which the way to the end is as long as
-- the train takes to stop at this speed, less the offset. At no speed between the chosen and the asked
-- one is there such a sensor ahead of the path's first node; at the chosen there is, or it is the lowest.
pub plan-Fastest :
    (track : ℕ → TrackNode) (first : ℕ) (path : List TrackEdge) (train i speed n : ℕ) (offset : ℤ)
    → get_train_index train ≡ some i
    → get_speed_index speed ≡ some n
    → (p : Plan) × (plan track first path train offset speed ≡ some p)
      × Fastest track first path train offset n p
unfolding plan
plan-Fastest track first path train i speed n offset h k =
    subst
      (λ o.
        (p : Plan) × (plan_from track first path train offset (rounds o)
            (record { train_speed = speed; waiting_sensor = none })
          ≡ some p)
        × Fastest track first path train offset n p)
      (sym k)
      (plan_from-Fastest track first path train offset i h (few_trains train i h) n
        (record { train_speed = speed; waiting_sensor = none }) (few_speeds speed n k))
