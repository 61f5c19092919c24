-- ===== src/User/Pather/Arrives/Planned.antt =====
-- user/pathfinder-server/server.c: the choice of a speed never reads outside the tables of the trains.
use choochoo_os.Base.{
  below, below_at, ℕ, zero, suc, ◌<◌, ◌≤◌, ◌≡◌, refl, inl, inr, Bool, true, false, Bool-cases,
  Option, none, some, ◌>>=◌, if◌then◌else◌, List, arith,
}
use choochoo_os.Base.Int.{ℤ, pos, ◌-ℤ◌, to_int, to_u32}
use choochoo_os.User.Track.{TrackNode, TrackEdge}
use choochoo_os.User.TrainData.{
  elem, index_from, get_train_index, get_speed_index, train_data_stop_dist,
}
use choochoo_os.User.TrainData.Measured.{
  train_data_speeds, train_data_stop_dist_table, train_data_short_move_speed,
}
use choochoo_os.User.Pather.{Plan, plan_at, plan_from, plan, waiting_from, is_ahead, rounds}
use choochoo_os.User.Pather.Drive.{Drive, slow_speed}

-- Every train with data has a stopping distance at every speed with data, and a slow speed.
abbrev is_some {ℓ} : {A : Type ℓ} → Option A → Bool
is_some none = false
is_some (some a) = true

of_is_some {ℓ} : {A : Type ℓ} (o : Option A) → is_some o ≡ true → (a : A) × (o ≡ some a)
of_is_some none h = absurd (ground arith)
of_is_some (some a) h = (a, refl)

abbrev stop_dist_at : ℕ → ℕ → Option ℕ
stop_dist_at i speed =
    get_speed_index speed >>= λ j. elem train_data_stop_dist_table i >>= λ row. elem row j

abbrev all_speeds : ℕ → Bool
all_speeds i = below 12 (λ n. is_some (elem train_data_speeds n >>= λ speed. stop_dist_at i speed))

pub plan_at-some :
    (track : ℕ → TrackNode) (back : List TrackEdge) (train i : ℕ) (offset : ℤ) (n : ℕ)
    → get_train_index train ≡ some i
    → i < 6
    → n < 12
    → (p : Plan) × (plan_at track back train offset n ≡ some p)
unfolding plan_at train_data_stop_dist get_speed_index index_from
plan_at-some track back train i offset n h i6 n12 = both (elem train_data_speeds n) (
    below_at 12 (λ n. is_some (elem train_data_speeds n >>= λ speed. stop_dist_at i speed))
      (below_at 6 all_speeds refl i i6) n n12)
  where
    plan_with : ℕ → ℕ → Plan
    plan_with speed dist = record {
      train_speed = speed;
      waiting_sensor = waiting_from track (to_int (to_u32 (pos dist -ℤ offset))) back;
    }

    one :
        (speed : ℕ) (o : Option ℕ)
        → is_some o ≡ true
        → (p : Plan) × ((o >>= λ dist. some (plan_with speed dist)) ≡ some p)
    one speed none e = absurd (ground arith)
    one speed (some dist) e = (plan_with speed dist, refl)

    both :
        (o : Option ℕ)
        → is_some (o >>= λ speed. stop_dist_at i speed) ≡ true
        → (p : Plan) × ((o >>= λ speed.
              train_data_stop_dist train speed >>= λ dist. some (plan_with speed dist))
            ≡ some p)
    both none e = absurd (ground arith)
    both (some speed) e = rw h (one speed (stop_dist_at i speed) e)

plan_from-some :
    (track : ℕ → TrackNode) (first : ℕ) (back : List TrackEdge) (train i : ℕ) (offset : ℤ) (n : ℕ)
    (p : Plan)
    → get_train_index train ≡ some i
    → i < 6
    → n ≤ 12
    → (q : Plan) × (plan_from track first back train offset n p ≡ some q)
unfolding plan_from
plan_from-some track first back train i offset zero p h i6 le = (p, refl)
plan_from-some track first back train i offset (suc n) p h i6 le =
    let q = plan_at-some track back train i offset n h i6 (omega arith) in
    elim (Bool-cases (is_ahead first q.0.waiting_sensor)) [
      | inl e ↦ (q.0, rw (q.1, e) refl)
      | inr e ↦
          let r = plan_from-some track first back train i offset n q.0 h i6 (omega arith) in
          (r.0, rw (q.1, e) r.1)
    ]

few_rounds : (speed : ℕ) → rounds (get_speed_index speed) ≤ 12
unfolding get_speed_index index_from
few_rounds speed = ground arith

pub few_trains : (train i : ℕ) → get_train_index train ≡ some i → i < 6
unfolding get_train_index index_from
few_trains train i h = ground arith

pub plan-some :
    (d : Drive) (i first : ℕ) (back : List TrackEdge)
    → get_train_index d.train ≡ some i
    → i < 6
    → (p : Plan) × (plan d.track first back d.train d.offset d.speed ≡ some p)
unfolding plan
plan-some d i first back h i6 =
    plan_from-some d.track first back d.train i d.offset (rounds (get_speed_index d.speed))
      (record { train_speed = d.speed; waiting_sensor = none }) h i6 (few_rounds d.speed)

pub slow_speed-some :
    (d : Drive) (i : ℕ)
    → get_train_index d.train ≡ some i
    → i < 6
    → (s : ℤ) × (slow_speed d ≡ some s)
unfolding slow_speed
slow_speed-some d i h i6 = rw h (
    one (elem train_data_short_move_speed i)
      (below_at 6 (λ i. is_some (elem train_data_short_move_speed i)) refl i i6))
  where
    one :
        (o : Option ℕ)
        → is_some o ≡ true
        → (s : ℤ) × ((o >>= λ s. some (if d.final_destination then pos s -ℤ pos 2 else pos s))
            ≡ some s)
    one none e = absurd (ground arith)
    one (some s) e = (_, refl)
