-- ===== src/User/Pather/Reserve.antt =====
-- user/pathfinder-server/server.c: the loop of PathFinderTask that reserves a route zone by zone, and has
-- the part that is reserved driven when a zone is refused.
pub mod Safe
use choochoo_os.Base.{
  ℕ, zero, suc, ◌+◌, Bool, true, false, ◌==◌, Option, none, some, if◌then◌else◌, update, List, [],
  ◌∷◌, ◌++◌, length,
}
use choochoo_os.Base.Int.{ℤ, pos, negsuc, ◌+ℤ◌}
use choochoo_os.User.Track.{TrackNode, TrackEdge, is_sensor}
use choochoo_os.User.Pather.{World}
use choochoo_os.User.Pather.Drive.{Drive, Run, returns, waits, faults, pather_complex_path}

-- What the task does, as the model writes it down: the answers of zone_reserve, the error that is logged
-- when a zone is refused once more after zone_wait, and the paths that are driven.
pub data Event : Type 0 where
  reserved : ℕ → Event
  refused : ℕ → Event
  unclaimed : ℕ → Event
  drives : List TrackEdge → Event

-- `path` is `complex_path` up to `cind`. `replies` are the answers of the zone server that are to come;
-- the log has the newest event first.
pub record Task : Type 0 where
  pub path : List TrackEdge
  pub last_sensor_dest_edge : Option ℕ
  pub replies : List Bool
  pub log : List Event
  pub world : World

-- How the loop, or a step of it, ends: with the next state, blocked, at a fault, or at a deadlock.
pub data Step : Type 0 where
  goes_on : Task → Step
  blocked : Task → Step
  fault : Task → Step
  deadlock : Task → Step

infixl 5 ◌after◌
abbrev pub ◌after◌ : Step → (Task → Step) → Step
s after f = elim s [
  | goes_on t ↦ f t
  | blocked t ↦ blocked t
  | fault t ↦ fault t
  | deadlock t ↦ deadlock t
]

abbrev pub note : Event → Task → Task
note e t = record t { log = e ∷ t.log }

abbrev pub take {ℓ} : {A : Type ℓ} → ℕ → List A → List A
take zero xs = []
take (suc n) [] = []
take (suc n) (x ∷ xs) = x ∷ take n xs

abbrev pub drop {ℓ} : {A : Type ℓ} → ℕ → List A → List A
drop zero xs = xs
drop (suc n) [] = []
drop (suc n) (x ∷ xs) = drop n xs

-- PatherComplexPath on the first edges of the path; the task waits until it is done.
abbrev pub drive_first : Drive → ℕ → Task → Step
drive_first d n t =
    let t' = note (drives (take n t.path)) t in
    elim (pather_complex_path d (take n t.path) t.world) [
      | returns w ↦
          goes_on (record t' { path = drop n t.path; last_sensor_dest_edge = none; world = w })
      | waits w ↦ blocked (record t' { world = w })
      | faults ↦ fault t'
    ]

-- Up to the last sensor that is reserved, if there is one.
abbrev pub drive_reserved : Drive → Option ℕ → Task → Step
drive_reserved d none t = goes_on t
drive_reserved d (some last) t = drive_first d (suc last) t

abbrev pub claim : ℕ → Task → Task
claim zone t =
    let w = t.world in
    record (note (reserved zone) t) {
      world = record w { reservations = update w.reservations zone (w.reservations zone +ℤ pos 1) };
    }

-- The second zone_reserve, after zone_wait.
abbrev pub reserve_again : ℕ → List Bool → Task → Step
reserve_again zone [] t = blocked t
reserve_again zone (true ∷ rs) t = goes_on (claim zone (record t { replies = rs }))
reserve_again zone (false ∷ rs) t = goes_on (note (unclaimed zone) (record t { replies = rs }))

-- zone_wait: whether it found a deadlock.
abbrev pub wait_for : ℕ → List Bool → Task → Step
wait_for zone [] t = blocked t
wait_for zone (true ∷ rs) t = deadlock (record t { replies = rs })
wait_for zone (false ∷ rs) t = reserve_again zone rs (record t { replies = rs })

abbrev pub reserve_by : Drive → ℕ → List Bool → Task → Step
reserve_by d zone [] t = blocked t
reserve_by d zone (true ∷ rs) t = goes_on (claim zone (record t { replies = rs }))
reserve_by d zone (false ∷ rs) t =
    drive_reserved d t.last_sensor_dest_edge (note (refused zone) (record t { replies = rs }))
    after λ t'. wait_for zone t'.replies t'

abbrev pub reserve : Drive → ℤ → Task → Step
reserve d (negsuc _) t = goes_on t
reserve d (pos zone) t = reserve_by d zone t.replies t

-- The zone that an edge leads into.
abbrev pub zone_ahead : (ℕ → TrackNode) → TrackEdge → ℤ
zone_ahead track e = (track (track e.dest).reverse).zone

abbrev pub add_edge : (ℕ → TrackNode) → TrackEdge → Task → Task
add_edge track e t = record t {
  path = t.path ++ e ∷ [];
  last_sensor_dest_edge =
      if is_sensor (track e.dest).type then some (length t.path) else t.last_sensor_dest_edge;
}

unfoldable pub reserve_route : Drive → List TrackEdge → Task → Step
reserve_route d [] t = goes_on t
reserve_route d (e ∷ es) t =
    reserve d (zone_ahead d.track e) t after λ t'. reserve_route d es (add_edge d.track e t')

-- The route, and at its end the rest of it.
unfoldable pub run_route : Drive → List TrackEdge → Task → Step
unfolding reserve_route
run_route d route t = reserve_route d route t after λ t'. drive_first d (length t'.path) t'

-- The state at the start: the zone at the source is held.
abbrev pub start_in : ℕ → List Bool → List ℤ → Task
start_in zone replies sensors = record {
  path = [];
  last_sensor_dest_edge = none;
  replies = replies;
  log = [];
  world = record { out = []; sensors = sensors; reservations = update (λ _. pos 0) zone (pos 1) };
}

-- A source in no zone is a write in front of the array.
abbrev pub start_at : ℤ → List Bool → List ℤ → Option Task
start_at (negsuc _) replies sensors = none
start_at (pos zone) replies sensors = some (start_in zone replies sensors)
