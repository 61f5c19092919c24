-- ===== src/User/Pather.antt =====
-- user/pathfinder-server/server.c: how a train is driven along a route that is reserved. What the task
-- sends to the servers is written down in order, and what WaitOnSensor returns is an argument.
pub mod Drive
pub mod Release
pub mod Account
pub mod Simple
pub mod Arrives
pub mod Turnouts
pub mod Stopping
pub mod Speed
pub mod Reserve
mod Tests
use choochoo_os.Base.{
  ℕ, zero, suc, ◌+◌, ◌-◌, Bool, true, false, ◌&&◌, ◌||◌, not, ◌==◌, ltb, Option, none, some, ◌>>=◌,
  if◌then◌else◌, update, List, [], ◌∷◌, ◌++◌,
}
use choochoo_os.Base.Int.{ℤ, pos, negsuc, ◌-ℤ◌, ltb_ℤ, eqb_ℤ, to_int, to_u32}
use choochoo_os.User.Switch.{SwitchMode, switch_mode_s, switch_mode_c}
use choochoo_os.User.Track.{
  TrackNode, TrackEdge, EdgeType, edge_reverse, edge_forward, NodeType, node_branch, is_sensor,
  dir_straight,
}
use choochoo_os.User.TrackWalk.{track_edge_cmp}
use choochoo_os.User.TrainData.{elem, get_speed_index, train_data_stop_dist}
use choochoo_os.User.TrainData.Measured.{train_data_speeds}

-- What is sent to the train system, the switch server, the clock and the zone server.
pub data Output : Type 0 where
  set_speed : ℕ → ℤ → Output
  stop : ℕ → Output
  reverse : ℕ → Output
  switch_set : ℤ → SwitchMode → Output
  delay : ℕ → Output
  zone_unreserve : ℕ → ℕ → Output
  zone_unreserve_all_except : ℕ → ℤ → Output

-- The state of a drive: what was sent, the answers of WaitOnSensor that are to come, the counts.
pub record World : Type 0 where
  pub out : List Output
  pub sensors : List ℤ
  pub reservations : ℕ → ℤ

abbrev pub send : List Output → World → World
send os w = record w { out = w.out ++ os }

-- The walk back from the end of the path, the edges in that order: the last sensor with the stopping
-- distance behind it.
unfoldable pub waiting_from : (ℕ → TrackNode) → ℤ → List TrackEdge → Option ℕ
waiting_from track stopping_distance [] = none
waiting_from track stopping_distance (e ∷ es) =
    let left = stopping_distance -ℤ e.dist in
    let rest = waiting_from track left es in
    if not (ltb_ℤ (pos 0) left) && is_sensor (track e.src).type then some e.src else rest

-- Whether the train is to wait for a sensor on its way.
abbrev pub is_ahead : ℕ → Option ℕ → Bool
is_ahead first none = false
is_ahead first (some w) = not (first == w)

-- What the loop over the speeds leaves: the speed and the sensor.
pub record Plan : Type 0 where
  pub train_speed : ℕ
  pub waiting_sensor : Option ℕ

-- One of the speeds, by its index.
unfoldable pub plan_at : (ℕ → TrackNode) → List TrackEdge → ℕ → ℤ → ℕ → Option Plan
plan_at track backwards train offset idx = elem train_data_speeds idx >>= λ speed.
    train_data_stop_dist train speed >>= λ dist. some (record {
      train_speed = speed;
      waiting_sensor = waiting_from track (to_int (to_u32 (pos dist -ℤ offset))) backwards;
    })

-- The loop over the speeds below the index `n`, downwards.
unfoldable pub plan_from : (ℕ → TrackNode) → ℕ → List TrackEdge → ℕ → ℤ → ℕ → Plan → Option Plan
plan_from track first backwards train offset zero p = some p
plan_from track first backwards train offset (suc n) p =
    plan_at track backwards train offset n >>= λ q.
    (let rest = plan_from track first backwards train offset n q in
      if is_ahead first q.waiting_sensor then some q else rest)

abbrev pub rounds : Option ℕ → ℕ
rounds none = 0
rounds (some idx) = suc idx

unfoldable pub plan : (ℕ → TrackNode) → ℕ → List TrackEdge → ℕ → ℤ → ℕ → Option Plan
unfolding get_speed_index
plan track first backwards train offset speed =
    plan_from track first backwards train offset (rounds (get_speed_index speed))
      (record { train_speed = speed; waiting_sensor = none })

-- The position of the turnout that an edge starts at.
unfoldable pub set_switch_at : TrackNode → TrackEdge → NodeType → List Output
unfolding track_edge_cmp
set_switch_at n e node_branch =
    switch_set n.num
      (if track_edge_cmp (n.edge dir_straight) e then switch_mode_s else switch_mode_c)
    ∷ []
set_switch_at n e _ = []

unfoldable pub set_switches : (ℕ → TrackNode) → List TrackEdge → List Output
set_switches track [] = []
set_switches track (e ∷ es) =
    set_switch_at (track e.src) e (track e.src).type ++ set_switches track es

-- A zone is given back when its count goes to 0. The zone -1 is none.
unfoldable pub release : ℕ → ℤ → World → World
release train (negsuc _) w = w
release train (pos z) w =
    let count = w.reservations z in
    record w {
      out =
          w.out
          ++ (if ltb_ℤ (pos 0) count && eqb_ℤ (count -ℤ pos 1) (pos 0)
              then zone_unreserve train z ∷ []
              else []);
      reservations = update w.reservations z (count -ℤ pos 1);
    }

unfoldable pub release_all : ℕ → (ℕ → TrackNode) → List TrackEdge → World → World
release_all train track [] w = w
release_all train track (e ∷ es) w =
    release_all train track es (release train (track e.dest).zone w)

-- At its end the path is stopped twice, with the command that cannot be lost, or once.
abbrev pub stop_train : ℕ → Bool → List Output
stop_train train true = stop train ∷ delay 100 ∷ stop train ∷ delay 100 ∷ []
stop_train train false = set_speed train (pos 0) ∷ delay 100 ∷ []

abbrev pub destination_by : EdgeType → TrackEdge → ℕ
destination_by edge_reverse e = e.src
destination_by edge_forward e = e.dest

-- The last edge of the path, the first of `backwards`.
abbrev pub destination : TrackEdge → ℕ
destination e = destination_by e.type e
