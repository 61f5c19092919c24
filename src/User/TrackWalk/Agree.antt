-- ===== src/User/TrackWalk/Agree.antt =====
-- user/traintrack/track_data.c and user/trainsys-server/server.c: track_next_sensor and
-- find_next_sensor find the same sensor.
use mathlib.Core.Path.{subst}
use choochoo_os.Base.{
  ℕ, zero, suc, ◌<◌, ◌≡◌, refl, ap, ◌∙◌, sym, ◌⊎◌, inl, inr, Bool, true, false, Bool-cases, ◌==◌,
  Option, none, some, if◌then◌else◌, arith,
}
use choochoo_os.Base.Int.{ℤ, pos, ◌+ℤ◌}
use choochoo_os.User.Switch.{SwitchMode, switch_mode_s, switch_mode_c, switch_mode_unknown}
use choochoo_os.User.Track.{
  TrackNode, TrackEdge, NodeType, node_none, node_sensor, node_branch, node_merge, node_enter,
  node_exit, is_sensor, track_max,
}
use choochoo_os.User.Track.Post.{post_track, for_switches, for_nodes}
use choochoo_os.User.Track.TrackA.{init_tracka}
use choochoo_os.User.Track.TrackB.{init_trackb}
use choochoo_os.User.NextSensor.{edge_by_mode, edge_by_type, edge_ahead, Next, find_next_sensor}
use choochoo_os.User.NextSensor.Ahead.{find_next_sensor_ends}
use choochoo_os.User.TrackWalk.{
  next_of_branch, next_of_type, track_next_edge, track_next_node, dest_of, stop_at, sensor_from,
  track_next_sensor,
}

-- What track_next_sensor returns where find_next_sensor ends with `r`.
abbrev pub sensor_of : Next → Option ℕ
sensor_of r = if r.is_unknown then none else some r.node

same_by_mode : (n : TrackNode) (m : SwitchMode) → next_of_branch n m ≡ edge_by_mode n m
same_by_mode n switch_mode_s = refl
same_by_mode n switch_mode_c = refl
same_by_mode n switch_mode_unknown = refl

same_by_type :
    (n : TrackNode) (modes : ℤ → SwitchMode) (t : NodeType)
    → next_of_type n modes t ≡ edge_by_type n modes t
same_by_type n modes node_none = refl
same_by_type n modes node_sensor = refl
same_by_type n modes node_branch = same_by_mode n (modes n.num)
same_by_type n modes node_merge = refl
same_by_type n modes node_enter = refl
same_by_type n modes node_exit = refl

module _ (track : ℕ → TrackNode) (modes : ℤ → SwitchMode) where
  next_node_lem :
      (i : ℕ) → track_next_node track modes (some i) ≡ dest_of (edge_ahead track modes i)
  unfolding track_next_node track_next_edge
  next_node_lem i = ap dest_of (same_by_type (track i) modes (track i).type)

  -- track_next_sensor from `i` with fuel `k` gives `r`.
  abbrev Gives : ℕ → ℕ → Next → Type 0
  Gives k i r =
      sensor_from k track modes (track_next_node track modes (some i)) ≡ some (sensor_of r)

  abbrev after_edge : ℕ → TrackEdge → ℤ → Option Next
  after_edge k e d =
      if is_sensor (track e.dest).type
      then some (record { node = e.dest; is_unknown = false; dist = d +ℤ e.dist })
      else find_next_sensor k track modes e.dest (d +ℤ e.dist)

  -- At the end of the track nothing is found.
  nothing_there :
      (k i : ℕ) (r : Next)
      → edge_ahead track modes i ≡ none
      → Gives (suc k) i r
      → none ≡ sensor_of r
  unfolding sensor_from
  nothing_there k i r h g =
      some_eq
        (ap (λ o. sensor_from (suc k) track modes o) (sym (next_node_lem i ∙ ap dest_of h)) ∙ g)
    where
      some_eq : {a b : Option ℕ} → some a ≡ some b → a ≡ b
      some_eq h = ground arith

  at_node :
      (k i : ℕ) (d : ℤ) (r : Next) (t : NodeType)
      → (track i).type ≡ t
      → (if is_sensor t
          then some (record { node = i; is_unknown = false; dist = d })
          else find_next_sensor k track modes i d)
        ≡ some r
      → ((find_next_sensor k track modes i d ≡ some r) → Gives (suc k) i r)
      → stop_at t i (sensor_from (suc k) track modes (track_next_node track modes (some i)))
        ≡ some (sensor_of r)
  at_node k i d r node_sensor e f rest = ap some (ap sensor_of (found f))
    where
      found : {a b : Next} → some a ≡ some b → a ≡ b
      found h = ground arith
  at_node k i d r node_exit e f rest =
      ap some (nothing_there k i r (ap (edge_by_type (track i) modes) e) (rest f))
  at_node k i d r node_none e f rest = rest f
  at_node k i d r node_branch e f rest = rest f
  at_node k i d r node_merge e f rest = rest f
  at_node k i d r node_enter e f rest = rest f

  module _ (null : (track track_max).type ≡ node_none) where
    -- From what an edge leads to, on.
    at_dest :
        (k : ℕ) (e : TrackEdge) (d : ℤ) (r : Next)
        → after_edge k e d ≡ some r
        → ((i : ℕ) (b : ℤ) → (find_next_sensor k track modes i b ≡ some r) → Gives (suc k) i r)
        → sensor_from (suc (suc k)) track modes (dest_of (some e)) ≡ some (sensor_of r)
    unfolding sensor_from
    at_dest k e d r f rest = elim (Bool-cases (e.dest == track_max)) [
      | inl h ↦
          let there = eqb→eq e.dest track_max h in
          let untyped = subst (λ i. (track i).type ≡ node_none) (sym there) null in
          rw h (
            ap some (
              nothing_there k e.dest r (ap (edge_by_type (track e.dest) modes) untyped) (
                rest e.dest (d +ℤ e.dist)
                  (skip (is_sensor (track e.dest).type) _ _ (ap is_sensor untyped) f))))
      | inr h ↦
          rw h (
            at_node k e.dest (d +ℤ e.dist) r (track e.dest).type refl f (rest e.dest (d +ℤ e.dist)))
    ]
      where
        eqb→eq : (a b : ℕ) → (a == b) ≡ true → a ≡ b
        eqb→eq a b h = ground arith

        skip :
            (b : Bool) (x y : Option Next) → b ≡ false → (if b then x else y) ≡ some r → y ≡ some r
        skip b x y h g = ground arith

    follows :
        (k i : ℕ) (d : ℤ) (r : Next) (o : Option TrackEdge)
        → edge_ahead track modes i ≡ o
        → elim o [
          | none ↦ some (record { node = i; is_unknown = true; dist = d })
          | some e ↦ after_edge k e d
        ]
          ≡ some r
        → ((j : ℕ) (b : ℤ) → (find_next_sensor k track modes j b ≡ some r) → Gives (suc k) j r)
        → Gives (suc (suc k)) i r
    unfolding sensor_from
    follows k i d r none h f rest =
        ap (sensor_from (suc (suc k)) track modes) (next_node_lem i ∙ ap dest_of h)
        ∙ ap (λ s. some s) (ap sensor_of (found f))
      where
        found : {a b : Next} → some a ≡ some b → a ≡ b
        found h = ground arith
    follows k i d r (some e) h f rest =
        ap (sensor_from (suc (suc k)) track modes) (next_node_lem i ∙ ap dest_of h)
        ∙ at_dest k e d r f rest

    find_next_sensor-Gives :
        (k i : ℕ) (d : ℤ) (r : Next)
        → find_next_sensor k track modes i d ≡ some r
        → Gives (suc k) i r
    unfolding find_next_sensor
    find_next_sensor-Gives zero i d r h = absurd (ground arith)
    find_next_sensor-Gives (suc k) i d r h =
        follows k i d r (edge_ahead track modes i) refl h (λ j b. find_next_sensor-Gives k j b r)

tracka_null : (init_tracka track_max).type ≡ node_none
unfolding post_track for_switches for_nodes
tracka_null = refl

trackb_null : (init_trackb track_max).type ≡ node_none
unfolding post_track for_switches for_nodes
trackb_null = refl

-- On tracks A and B, from every node and however the turnouts stand, track_next_sensor ends, with the
-- sensor that find_next_sensor finds, and with the null pointer where that finds the way unknown.
pub track_next_sensor-find_next_sensor :
    (track : ℕ → TrackNode) (modes : ℤ → SwitchMode) (cur : ℕ)
    → (track ≡ init_tracka) ⊎ (track ≡ init_trackb)
    → cur < 144
    → (r : Next) × (find_next_sensor 6 track modes cur (pos 0) ≡ some r)
      × (track_next_sensor 7 track modes (some cur) ≡ some (sensor_of r))
unfolding track_next_sensor
track_next_sensor-find_next_sensor track modes cur one h =
    let (r, es, e, _) = find_next_sensor_ends track modes cur (pos 0) one h in
    (r, e, find_next_sensor-Gives track modes (null one) 6 cur (pos 0) r e)
  where
    null : (track ≡ init_tracka) ⊎ (track ≡ init_trackb) → (track track_max).type ≡ node_none
    null (inl e) = subst (λ t. (t track_max).type ≡ node_none) (sym e) tracka_null
    null (inr e) = subst (λ t. (t track_max).type ≡ node_none) (sym e) trackb_null
