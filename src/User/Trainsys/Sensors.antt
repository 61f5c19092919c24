-- ===== src/User/Trainsys/Sensors.antt =====
-- user/trainsys-server/server.c: the positions of the trains and the sensors that they hit next.
use choochoo_os.Base.{
  ℕ, zero, suc, Bool, false, Option, none, some, ltb, if◌then◌else◌, update, List, [], ◌∷◌, ◌++◌,
}
use choochoo_os.Base.Int.{ℤ, pos, negsuc, eqb_ℤ}
use choochoo_os.User.Track.{track_max}
use choochoo_os.User.NextSensor.{Next, find_next_sensor}
use choochoo_os.User.Trainsys.State.{
  Server, Answers, Output, reply, render_predict_next_sensor, TrainSystemResponse, response,
  system_sensor_hit, train_data_trains, ◌>>=◌, set_next,
}

-- find_next_sensor from a node of the array. 6 rounds are enough on both tracks.
unfoldable pub walk : Answers → ℤ → Option Next
walk w (pos n) = if ltb n track_max then find_next_sensor 6 w.track w.modes n (pos 0) else none
walk w (negsuc _) = none

abbrev pub sensor_or_none : Next → ℤ
sensor_or_none n = if n.is_unknown then negsuc 0 else pos n.node

-- The node in the opposite direction.
unfoldable pub turned : Answers → ℤ → Option ℕ
turned w (pos p) = if ltb p track_max then some (w.track p).reverse else none
turned w (negsuc _) = none

-- Both next sensors of the train `train`, with the index `i`, from its position on.
unfoldable pub predict_both : Answers → Bool → ℕ → ℕ → ℤ → Server → Option (Server × List Output)
predict_both w unknown i train position s = walk w position >>= λ n1. walk w (pos n1.node) >>= λ n2.
    some (
      set_next i (sensor_or_none n1) (if unknown then negsuc 0 else sensor_or_none n2) s,
      render_predict_next_sensor train (sensor_or_none n1) ∷ [],
    )

-- SYSTEM_SWITCH_CHANGE for one train.
unfoldable pub predict_again : Answers → ℕ → ℕ → Server → Option (Server × List Output)
predict_again w i train s =
    let position = s.train_positions i in
    let next = s.train_next_sensors i 0 in
    if eqb_ℤ position (negsuc 0)
    then some (s, [])
    else (turned w position >>= λ rev.
        if eqb_ℤ (w.track rev).num next
        then (walk w next >>= λ n2. some (set_next i next (sensor_or_none n2) s, []))
        else predict_both w false i train position s)

unfoldable pub switch_change_from : ℕ → List ℕ → Answers → Server → Option (Server × List Output)
switch_change_from i [] w s = some (s, [])
switch_change_from i (train ∷ trains) w s = predict_again w i train s >>= λ one.
    switch_change_from (suc i) trains w one.0 >>= λ rest. some (rest.0, one.1 ++ rest.1)

-- The first of `n` trains whose next sensor at a depth is this one: the loop from the index `j` on.
unfoldable pub hit_from : ℕ → ℕ → ℕ → ℤ → Server → Option ℕ
hit_from zero j depth sensor s = none
hit_from (suc n) j depth sensor s =
    let rest = hit_from n (suc j) depth sensor s in
    if eqb_ℤ (s.train_next_sensors j depth) sensor then some j else rest

-- The next sensors of all six trains come before those behind them.
unfoldable pub train_hit : ℤ → Server → Option ℕ
train_hit sensor s = elim (hit_from 6 0 0 sensor s) [
  | some j ↦ some j
  | none ↦ hit_from 6 0 1 sensor s
]

abbrev pub missed : TrainSystemResponse
missed = record (response system_sensor_hit) {
  train = negsuc 0;
  next_sensor_id = negsuc 0;
  prev_sensor_id = negsuc 0;
  dist_to_next = negsuc 0;
}

-- The sensors behind the one that the train hit, whose node is `cur`.
unfoldable pub predict_hit :
    Answers → ℕ → ℕ → ℕ → ℕ → TrainSystemResponse → Server → Option (Server × List Output)
predict_hit w from i train cur r s =
    let r' = record r { train = pos train; train_state = s.train_states train } in
    walk w (pos cur) >>= λ n1.
    if n1.is_unknown
    then some (
      set_next i (negsuc 0) (negsuc 0) s,
      render_predict_next_sensor train (negsuc 0) ∷ reply from r' ∷ [],
    )
    else (walk w (pos n1.node) >>= λ n2. some (
      set_next i (pos n1.node) (if n2.is_unknown then negsuc 0 else (w.track n2.node).num) s,
      render_predict_next_sensor train (pos n1.node)
          ∷ reply from (record r' { next_sensor_id = pos n1.node; dist_to_next = n1.dist })
          ∷ [],
    ))

abbrev pub train_at : ℕ → List ℕ → ℕ
train_at i [] = 0
train_at zero (t ∷ ts) = t
train_at (suc i) (t ∷ ts) = train_at i ts

-- The node of the sensor by its name; -1 has none.
abbrev pub node_of : Answers → ℤ → Option ℕ
node_of w (pos id) = w.node_index id
node_of w (negsuc _) = none

abbrev pub located :
    Answers → ℕ → ℕ → TrainSystemResponse → Server → Option ℕ → Option (Server × List Output)
located w from i r s none = some (s, reply from r ∷ [])
located w from i r s (some cur) = predict_hit w from i (train_at i train_data_trains) cur r s

abbrev pub hit_by : Answers → ℕ → ℤ → Server → Option ℕ → Option (Server × List Output)
hit_by w from sensor s none = some (s, reply from missed ∷ [])
hit_by w from sensor s (some i) =
    let r = record missed { prev_sensor_id = s.train_positions i } in
    let s' = record s { train_positions = update s.train_positions i sensor } in
    located w from i r s' (node_of w sensor)

unfoldable pub sensor_hit : Answers → ℕ → ℤ → Server → Option (Server × List Output)
sensor_hit w from sensor s = hit_by w from sensor s (train_hit sensor s)

-- After a turn the train hits the other side of its last sensor first.
unfoldable pub predict_turned : Answers → ℕ → ℕ → ℕ → Server → Option (Server × List Output)
predict_turned w i train next s = walk w (pos next) >>= λ n.
    some
      (set_next i (pos next) (sensor_or_none n) s, render_predict_next_sensor train (pos next) ∷ [])

-- The train turns while it stands, or after it has stopped.
unfoldable pub turn_standing : Answers → ℕ → ℕ → Server → Option (Server × List Output)
turn_standing w i train s =
    let position = s.train_positions i in
    if eqb_ℤ position (negsuc 0)
    then some (s, [])
    else (turned w position >>= λ next. predict_turned w i train next s)

unfoldable pub turn_stopped : Answers → ℕ → ℕ → Server → Option (Server × List Output)
turn_stopped w i train s =
    let position = s.train_positions i in
    if eqb_ℤ position (negsuc 0)
    then some (s, [])
    else (turned w position >>= λ next.
        if eqb_ℤ (s.train_next_sensors i 0) (pos next)
        then predict_both w w.uninitialised i train position s
        else predict_turned w i train next s)
