-- ===== src/User/Trainsys/Requests.antt =====
-- user/trainsys-server/server.c: the requests of TrainSystemServer.
use choochoo_os.Base.{
  ℕ, zero, suc, Bool, true, false, not, Option, none, some, ◌==◌, if◌then◌else◌, update, List, [],
  ◌∷◌, ◌++◌,
}
use choochoo_os.Base.Int.{ℤ, pos, to_u32}
use choochoo_os.User.Trainsys.State.{
  Server, Answers, Output, reply, io_marklin_set_train, io_marklin_reverse_train_0,
  create_reverse_task, TrainSystemRequest, TrainSystemRequestType, response, system_set_speed,
  system_set_lights, system_get_train, system_sensor_hit, system_switch_change, system_reverse,
  system_reverse_reverse, system_reverse_restart, system_get_train_position, system_stop_train,
  other, train_data_trains, trains_count, get_train_index, slot, without_speed, speed_of,
  with_speed, with_lights, set_state, ◌>>=◌,
}
use choochoo_os.User.Trainsys.Sensors.{sensor_hit, switch_change_from, turn_standing, turn_stopped}

unfoldable pub set_speed : ℕ → ℕ → ℤ → Server → Server × List Output
set_speed from train speed s =
    let state = with_speed (s.train_states train) (to_u32 speed) in
    (
      set_state train state s,
      io_marklin_set_train train state
          ∷ reply from
              (record (response system_set_speed) { train_state = state; train = pos train })
          ∷ [],
    )

unfoldable pub stop_train : ℕ → ℕ → Server → Server × List Output
stop_train from train s =
    let temp_state = with_speed (s.train_states train) 15 in
    let state = without_speed (s.train_states train) in
    (
      set_state train state s,
      io_marklin_reverse_train_0 train temp_state state
          ∷ reply from (record (response system_stop_train) { train = pos train })
          ∷ [],
    )

unfoldable pub set_lights : ℕ → ℕ → Bool → Server → Server × List Output
set_lights from train on s =
    let state = with_lights on (s.train_states train) in
    (
      set_state train state s,
      io_marklin_set_train train state
          ∷ reply from
              (record (response system_set_speed) { train_state = state; train = pos train })
          ∷ [],
    )

-- What is done to a train, if it has data and a place in the arrays for such.
abbrev pub for_train :
    ℕ → (ℕ → ℕ → Server → Option (Server × List Output)) → Server → Option (Server × List Output)
for_train train f s = elim (get_train_index train) [ none ↦ some (s, []) | some i ↦ f i train s ]

abbrev pub reversing : ℕ → Bool → Output
reversing from already =
    reply from (record (response system_reverse) { was_already_reversing = already })

-- A train that stands turns at once, one that drives is stopped and left to a task.
unfoldable pub reverse : Answers → ℕ → ℕ → Server → Option (Server × List Output)
reverse w from train s =
    let state = s.train_states train in
    if not (s.reverse_tasks train == 0)
    then some (s, reversing from true ∷ [])
    else if speed_of state == 0
    then (for_train train (turn_standing w) s >>= λ r. some (
      r.0,
      io_marklin_reverse_train_0 train (with_speed state 15) state ∷ r.1
          ++ reversing from false ∷ [],
    ))
    else some (
      record s { reverse_tasks = update s.reverse_tasks train w.created },
      io_marklin_set_train train (without_speed state)
          ∷ create_reverse_task w.created train (speed_of state)
          ∷ reversing from false
          ∷ [],
    )

-- The first of `n` trains that the task reverses: the loop from the number `i` on.
unfoldable pub reversed_by : ℕ → ℕ → ℕ → Server → Option ℕ
reversed_by zero i tid s = none
reversed_by (suc n) i tid s =
    let rest = reversed_by n (suc i) tid s in if s.reverse_tasks i == tid then some i else rest

unfoldable pub reverse_reverse : Answers → ℕ → ℕ → Server → Option (Server × List Output)
reverse_reverse w from train s =
    let state = s.train_states train in
    let s' = record s { reversed = update s.reversed train (not (s.reversed train)) } in
    for_train train (turn_stopped w) s' >>= λ r. some (
      r.0,
      io_marklin_reverse_train_0 train (with_speed state 15) (without_speed state)
          ∷ reply from (response system_reverse_reverse)
          ∷ r.1,
    )

unfoldable pub reverse_restart : ℕ → ℕ → Server → Server × List Output
reverse_restart from train s = (
  record s { reverse_tasks = update s.reverse_tasks train 0 },
  io_marklin_set_train train (s.train_states train)
      ∷ reply from (response system_reverse_restart)
      ∷ [],
)

unfoldable pub get_train_position : ℕ → ℕ → Server → Option (Server × List Output)
get_train_position from train s = get_train_index train >>= λ i. some (
  s,
  reply from (record (response system_get_train_position) {
    position = s.train_positions i;
    train_state = s.train_states train;
    next_sensor_id = s.train_next_sensors i 0;
  })
      ∷ [],
)

-- One request from the task `from`, by its type. `none` is a number outside an array.
unfoldable pub handle_type :
    TrainSystemRequestType
    → Answers
    → ℕ
    → TrainSystemRequest
    → Server
    → Option (Server × List Output)
handle_type system_get_train w from q s = slot q.train >>= λ t. some (
  s,
  reply from
        (record (response system_get_train) { train_state = s.train_states t; train = q.train })
      ∷ [],
)
handle_type system_switch_change w from q s = switch_change_from 0 train_data_trains w s >>= λ r.
    some (r.0, reply from (response system_switch_change) ∷ r.1)
handle_type system_sensor_hit w from q s = sensor_hit w from q.sensor_hit s
handle_type system_set_speed w from q s = slot q.train >>= λ t. some (set_speed from t q.speed s)
handle_type system_stop_train w from q s = slot q.train >>= λ t. some (stop_train from t s)
handle_type system_set_lights w from q s =
    slot q.train >>= λ t. some (set_lights from t q.light_status s)
handle_type system_reverse w from q s = slot q.train >>= λ t. reverse w from t s
handle_type system_reverse_reverse w from q s =
    reversed_by trains_count 0 from s >>= λ t. reverse_reverse w from t s
handle_type system_reverse_restart w from q s =
    reversed_by trains_count 0 from s >>= λ t. some (reverse_restart from t s)
handle_type system_get_train_position w from q s = slot q.train >>= λ t. get_train_position from t s
handle_type other w from q s = some (s, [])

abbrev pub handle : Answers → ℕ → TrainSystemRequest → Server → Option (Server × List Output)
handle w from q s = handle_type q.type w from q s
