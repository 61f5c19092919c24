-- ===== src/User/Pather/Drive.antt =====
-- user/pathfinder-server/server.c: PatherSimplePath and PatherComplexPath.
use choochoo_os.Base.{
  ℕ, Bool, true, false, ltb, Option, none, some, ◌>>=◌, if◌then◌else◌, List, [], ◌∷◌, ◌++◌, length,
}
use choochoo_os.Base.Int.{ℤ, pos, negsuc, ◌-ℤ◌, eqb_ℤ}
use choochoo_os.User.Track.{TrackNode, TrackEdge, edge_reverse, edge_forward}
use choochoo_os.User.TrainData.{elem, get_train_index}
use choochoo_os.User.TrainData.Measured.{train_data_short_move_speed}
use choochoo_os.User.Pather.{
  Output, set_speed, reverse, delay, zone_unreserve_all_except, World, send, Plan, plan, is_ahead,
  set_switches, release, release_all, stop_train, destination,
}

-- A drive ends, waits for a sensor that does not come, or faults.
pub data Run : Type 0 where
  returns : World → Run
  waits : World → Run
  faults : Run

infixl 5 ◌then_do◌
abbrev pub ◌then_do◌ : Run → (World → Run) → Run
r then_do f = elim r [ returns w ↦ f w | waits w ↦ waits w | faults ↦ faults ]

-- What a drive is given.
pub record Drive : Type 0 where
  pub track : ℕ → TrackNode
  pub train : ℕ
  pub speed : ℕ
  pub offset : ℤ
  pub final_destination : Bool

unfoldable pub slow_speed : Drive → Option ℤ
unfolding get_train_index
slow_speed d = get_train_index d.train >>= λ i. elem train_data_short_move_speed i >>= λ s.
    some (if d.final_destination then pos s -ℤ pos 2 else pos s)

-- The zone behind a reversal. A source in no zone is a read in front of the array.
abbrev pub release_zone : ℕ → ℤ → World → Option World
release_zone train (pos z) w = some (release train (pos z) w)
release_zone train (negsuc _) w = none

abbrev pub release_source : ℕ → ℤ → Bool → World → Option World
release_source train zone true w = release_zone train zone w
release_source train zone false w = some w

-- What is left of the path: the edges from `edge_cutoff` on, and whether its source is held.
pub record Ahead : Type 0 where
  pub edges : List TrackEdge
  pub src_is_rev : Bool
  pub world : World

-- The loop over the edges for the sensor `hit`. `before` are the edges from `edge_cutoff` on that it has
-- gone over; `src` is the zone of the path's first node.
unfoldable pub pass : Drive → ℤ → ℤ → List TrackEdge → List TrackEdge → Bool → World → Option Ahead
pass d src hit before [] rev w = some (record { edges = before; src_is_rev = rev; world = w })
pass d src hit before (e ∷ es) rev w =
    let through = before ++ e ∷ [] in
    let released = release_source d.train src rev w >>= λ w'.
    pass d src hit [] es false (release_all d.train d.track through w') in
    let on = pass d src hit through es rev w in
    if eqb_ℤ (d.track e.dest).num hit then released else on

-- What is sent when a sensor is hit on the way.
abbrev pub at_sensor : Drive → ℤ → ℤ → ℕ → ℤ → List Output
at_sensor d slow waiting dest hit =
    if eqb_ℤ hit (pos dest)
    then stop_train d.train d.final_destination
    else if eqb_ℤ hit waiting
    then set_speed d.train slow ∷ []
    else []

-- The loop until the destination is hit, over the sensors that WaitOnSensor returns.
unfoldable pub follow : Drive → ℤ → ℤ → ℤ → ℕ → List ℤ → List TrackEdge → Bool → World → Run
unfolding pass
follow d src slow waiting dest [] edges rev w = waits (record w { sensors = [] })
follow d src slow waiting dest (hit ∷ hits) edges rev w =
    elim (pass d src hit [] edges rev (send (at_sensor d slow waiting dest hit) w)) [
      | none ↦ faults
      | some a ↦
          let on = follow d src slow waiting dest hits a.edges a.src_is_rev a.world in
          if eqb_ℤ hit (pos dest) then returns (record a.world { sensors = hits }) else on
    ]

-- The move that is too short to wait for a sensor on the way: the task waits for the destination.
abbrev pub short_move_to : Drive → ℤ → List TrackEdge → Bool → List ℤ → World → Run
short_move_to d src path rev [] w = waits w
short_move_to d src path rev (hit ∷ hits) w = elim (release_source d.train src rev w) [
  | none ↦ faults
  | some w' ↦ returns (
      send (stop_train d.train d.final_destination)
        (record (release_all d.train d.track path w') { sensors = hits }))
]

abbrev pub short_move : Drive → ℤ → ℤ → List TrackEdge → Bool → World → Run
short_move d src slow path rev w =
    short_move_to d src path rev w.sensors (send (set_speed d.train slow ∷ []) w)

abbrev pub long_move : Drive → ℤ → ℤ → ℕ → ℕ → ℕ → List TrackEdge → Bool → World → Run
long_move d src slow speed waiting dest path rev w =
    follow d src slow (d.track waiting).num dest w.sensors path rev
      (send (set_speed d.train (pos speed) ∷ []) w)

abbrev pub move : Drive → TrackEdge → ℤ → Plan → ℕ → List TrackEdge → Bool → World → Run
move d first slow p dest path rev w =
    let src = (d.track first.src).zone in
    if is_ahead first.src p.waiting_sensor
    then elim p.waiting_sensor [
      | none ↦ faults
      | some waiting ↦ long_move d src slow p.train_speed waiting dest path rev w
    ]
    else short_move d src slow path rev w

abbrev pub backwards : List TrackEdge → List TrackEdge → List TrackEdge
backwards done [] = done
backwards done (e ∷ es) = backwards (e ∷ done) es

-- A path with no edge has no last edge.
abbrev pub simple_path_from :
    Drive → TrackEdge → List TrackEdge → List TrackEdge → Bool → World → Run
simple_path_from d first path [] rev w = faults
simple_path_from d first path (last ∷ back) rev w =
    elim (plan d.track first.src (last ∷ back) d.train d.offset d.speed) [
      | none ↦ faults
      | some p ↦ elim (slow_speed d) [
        | none ↦ faults
        | some slow ↦
            move d first slow p (destination last) path rev (send (set_switches d.track path) w)
      ]
    ]

unfoldable pub pather_simple_path : Drive → List TrackEdge → Bool → World → Run
unfolding plan set_switches slow_speed follow release_all release
pather_simple_path d [] rev w = faults
pather_simple_path d (e ∷ es) rev w = simple_path_from d e (e ∷ es) (backwards [] (e ∷ es)) rev w

-- The path up to a reversal, if it is more than the edge of the reversal.
abbrev pub before_reversal : Drive → List TrackEdge → Bool → World → Run
unfolding pather_simple_path
before_reversal d path rev w =
    if ltb 1 (length path)
    then pather_simple_path (record d { offset = pos 0; final_destination = false }) path rev w
    else returns w

-- The loop over the edges: `path` is what was gathered since the last reversal.
unfoldable pub complex_from : Drive → List TrackEdge → List TrackEdge → Bool → World → Run
unfolding before_reversal
complex_from d [] [] rev w = returns w
complex_from d (e ∷ path) [] rev w =
    pather_simple_path (record d { final_destination = true }) (e ∷ path) rev w
complex_from d path (e ∷ es) rev w =
    let through = path ++ e ∷ [] in
    elim e.type [
      | edge_reverse ↦ before_reversal d through rev w then_do λ w'.
          complex_from d [] es true (send (reverse d.train ∷ delay 60 ∷ []) w')
      | edge_forward ↦ complex_from d through es rev w
    ]

-- The zone of the node opposite to the end of the path.
abbrev pub dest_zone : (ℕ → TrackNode) → TrackEdge → ℤ
dest_zone track e = (track (track e.dest).reverse).zone

unfoldable pub pather_complex_path : Drive → List TrackEdge → World → Run
unfolding complex_from
pather_complex_path d path w = elim (backwards [] path) [
  | [] ↦ returns w
  | last ∷ _ ↦ complex_from d [] path false w then_do λ w'.
      returns (send (zone_unreserve_all_except d.train (dest_zone d.track last) ∷ []) w')
]
