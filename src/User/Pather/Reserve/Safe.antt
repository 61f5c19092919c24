-- ===== src/User/Pather/Reserve/Safe.antt =====
-- user/pathfinder-server/server.c: PathFinderTask has a train driven only where it has asked for the zones.
use choochoo_os.Base.{
  ℕ, zero, suc, ◌≡◌, refl, ◌⊎◌, inl, inr, Bool, true, false, Option, none, some, List, [], ◌∷◌,
  length, All, All-append,
}
use choochoo_os.Base.Int.{ℤ, pos, negsuc}
use choochoo_os.User.Track.{TrackNode, TrackEdge}
use choochoo_os.User.Pather.Drive.{Drive, Run, returns, waits, faults, pather_complex_path}
use choochoo_os.User.Pather.Reserve.{
  Event, reserved, refused, unclaimed, drives, Task, Step, goes_on, blocked, fault, deadlock,
  ◌after◌, note, take, drop, drive_first, drive_reserved, wait_for, reserve_by, reserve, zone_ahead,
  add_edge, reserve_route, run_route, start_in,
}

-- The zone was reserved, or the error was logged that it is not.
abbrev pub Asked : ℕ → List Event → Type 0
Asked z [] = ⊥
Asked z (reserved y ∷ log) = (y ≡ z) ⊎ Asked z log
Asked z (unclaimed y ∷ log) = (y ≡ z) ⊎ Asked z log
Asked z (refused y ∷ log) = Asked z log
Asked z (drives es ∷ log) = Asked z log

abbrev AskedZone : ℤ → List Event → Type 0
AskedZone (pos z) log = Asked z log
AskedZone (negsuc _) log = Unit

abbrev pub Covered : (ℕ → TrackNode) → List Event → TrackEdge → Type 0
Covered track log e = AskedZone (zone_ahead track e) log

-- Before a path is driven, the zone that each of its edges leads into was asked for.
abbrev pub IsSafe : (ℕ → TrackNode) → List Event → Type 0
IsSafe track [] = Unit
IsSafe track (drives es ∷ log) = All (Covered track log) es × IsSafe track log
IsSafe track (reserved z ∷ log) = IsSafe track log
IsSafe track (refused z ∷ log) = IsSafe track log
IsSafe track (unclaimed z ∷ log) = IsSafe track log

module _ {A : Type 0} (P : A → Type 0) where
  All-take : (n : ℕ) (xs : List A) → All P xs → All P (take n xs)
  All-take zero xs h = tt
  All-take (suc n) [] h = tt
  All-take (suc n) (x ∷ xs) h = (h.0, All-take n xs h.1)

  All-drop : (n : ℕ) (xs : List A) → All P xs → All P (drop n xs)
  All-drop zero xs h = h
  All-drop (suc n) [] h = tt
  All-drop (suc n) (x ∷ xs) h = All-drop n xs h.1

  All-map : (Q : A → Type 0) (xs : List A) → ((x : A) → P x → Q x) → All P xs → All Q xs
  All-map Q [] f h = tt
  All-map Q (x ∷ xs) f h = (f x h.0, All-map Q xs f h.1)

Asked-later : (z : ℕ) (e : Event) (log : List Event) → Asked z log → Asked z (e ∷ log)
Asked-later z (reserved y) log h = inr h
Asked-later z (unclaimed y) log h = inr h
Asked-later z (refused y) log h = h
Asked-later z (drives es) log h = h

module _ (d : Drive) where
  open d use {track}

  Covered-later :
      (x : Event) (log : List Event) (e : TrackEdge)
      → Covered track log e
      → Covered track (x ∷ log) e
  Covered-later x log e h = by_zone (zone_ahead track e) h
    where
      by_zone : (z : ℤ) → AskedZone z log → AskedZone z (x ∷ log)
      by_zone (pos z) k = Asked-later z x log k
      by_zone (negsuc _) k = tt

  later :
      (x : Event) (log : List Event) (es : List TrackEdge)
      → All (Covered track log) es
      → All (Covered track (x ∷ log)) es
  later x log es h =
      All-map (Covered track log) (Covered track (x ∷ log)) es (Covered-later x log) h

  -- What holds between the steps.
  abbrev Inv : Task → Type 0
  Inv t = All (Covered track t.log) t.path × IsSafe track t.log

  -- A step keeps to a condition on the state that it goes on with.
  abbrev Keeps : (Task → Type 0) → Step → Type 0
  Keeps P (goes_on t) = P t
  Keeps P (blocked t) = IsSafe track t.log
  Keeps P (fault t) = IsSafe track t.log
  Keeps P (deadlock t) = IsSafe track t.log

  Keeps-after :
      (P Q : Task → Type 0) (s : Step) (f : Task → Step)
      → Keeps P s
      → ((t : Task) → P t → Keeps Q (f t))
      → Keeps Q (s after f)
  Keeps-after P Q (goes_on t) f h k = k t h
  Keeps-after P Q (blocked t) f h k = h
  Keeps-after P Q (fault t) f h k = h
  Keeps-after P Q (deadlock t) f h k = h

  drive_first-Keeps : (n : ℕ) (t : Task) → Inv t → Keeps Inv (drive_first d n t)
  drive_first-Keeps n t (covered, safe) = by_run (pather_complex_path d first t.world)
    where
      first : List TrackEdge
      first = take n t.path

      log : List Event
      log = drives first ∷ t.log

      safe' : IsSafe track log
      safe' = (All-take (Covered track t.log) n t.path covered, safe)

      by_run :
          (r : Run)
          → Keeps Inv (elim r [
            | returns w ↦ goes_on (record (note (drives first) t) {
              path = drop n t.path;
              last_sensor_dest_edge = none;
              world = w;
            })
            | waits w ↦ blocked (record (note (drives first) t) { world = w })
            | faults ↦ fault (note (drives first) t)
          ])
      by_run (returns w) = (
        later (drives first) t.log (drop n t.path)
            (All-drop (Covered track t.log) n t.path covered),
        safe',
      )
      by_run (waits w) = safe'
      by_run faults = safe'

  drive_reserved-Keeps : (last : Option ℕ) (t : Task) → Inv t → Keeps Inv (drive_reserved d last t)
  drive_reserved-Keeps none t h = h
  drive_reserved-Keeps (some last) t h = drive_first-Keeps (suc last) t h

  abbrev Has : ℕ → Task → Type 0
  Has zone t = Inv t × Asked zone t.log

  wait_for-Keeps :
      (zone : ℕ) (rs : List Bool) (t : Task) → Inv t → Keeps (Has zone) (wait_for zone rs t)
  wait_for-Keeps zone [] t h = h.1
  wait_for-Keeps zone (true ∷ rs) t h = h.1
  wait_for-Keeps zone (false ∷ []) t h = h.1
  wait_for-Keeps zone (false ∷ true ∷ rs) t h =
      ((later (reserved zone) t.log t.path h.0, h.1), inl refl)
  wait_for-Keeps zone (false ∷ false ∷ rs) t h =
      ((later (unclaimed zone) t.log t.path h.0, h.1), inl refl)

  reserve-Keeps :
      (zone : ℤ) (t : Task) → Inv t → Keeps (λ u. Inv u × AskedZone zone u.log) (reserve d zone t)
  reserve-Keeps (negsuc _) t h = (h, tt)
  reserve-Keeps (pos zone) t h = by_reply t.replies
    where
      by_reply : (rs : List Bool) → Keeps (Has zone) (reserve_by d zone rs t)
      by_reply [] = h.1
      by_reply (true ∷ rs) = ((later (reserved zone) t.log t.path h.0, h.1), inl refl)
      by_reply (false ∷ rs) =
          let u = note (refused zone) (record t { replies = rs }) in
          Keeps-after Inv (Has zone) (drive_reserved d t.last_sensor_dest_edge u)
            (λ t'. wait_for zone t'.replies t')
            (drive_reserved-Keeps t.last_sensor_dest_edge u
              (later (refused zone) t.log t.path h.0, h.1))
            (λ t' k. wait_for-Keeps zone t'.replies t' k)

  reserve_route-Keeps : (es : List TrackEdge) (t : Task) → Inv t → Keeps Inv (reserve_route d es t)
  unfolding reserve_route
  reserve_route-Keeps [] t h = h
  reserve_route-Keeps (e ∷ es) t h =
      Keeps-after (λ u. Inv u × AskedZone (zone_ahead track e) u.log) Inv
        (reserve d (zone_ahead track e) t) (λ t'. reserve_route d es (add_edge track e t'))
        (reserve-Keeps (zone_ahead track e) t h)
        (λ t' k.
          reserve_route-Keeps es (add_edge track e t')
            (All-append (Covered track t'.log) t'.path (e ∷ []) k.0.0 (k.1, tt), k.0.1))

-- The log of a run, however it ends.
abbrev pub log_of : Step → List Event
log_of (goes_on t) = t.log
log_of (blocked t) = t.log
log_of (fault t) = t.log
log_of (deadlock t) = t.log

-- However the zone server and the sensors answer, PathFinderTask has a path driven only when the zone
-- that each edge of it leads into has been reserved before, or when zone_reserve has refused it once more
-- after zone_wait and the error has been logged.
pub run_route-IsSafe :
    (d : Drive) (route : List TrackEdge) (zone : ℕ) (replies : List Bool) (sensors : List ℤ)
    → IsSafe d.track (log_of (run_route d route (start_in zone replies sensors)))
unfolding run_route
run_route-IsSafe d route zone replies sensors =
    safe_log
      (reserve_route d route (start_in zone replies sensors) after λ t.
        drive_first d (length t.path) t)
      (Keeps-after d (Inv d) (Inv d) (reserve_route d route (start_in zone replies sensors))
        (λ t. drive_first d (length t.path) t)
        (reserve_route-Keeps d route (start_in zone replies sensors) (tt, tt))
        (λ t h. drive_first-Keeps d (length t.path) t h))
  where
    safe_log : (s : Step) → Keeps d (Inv d) s → IsSafe d.track (log_of s)
    safe_log (goes_on t) h = h.1
    safe_log (blocked t) h = h
    safe_log (fault t) h = h
    safe_log (deadlock t) h = h
