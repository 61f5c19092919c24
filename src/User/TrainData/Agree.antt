-- ===== src/User/TrainData/Agree.antt =====
-- user/traindata/train_data.c and user/traintrack/track_data.c: the two lists of the zones are the same.
use choochoo_os.Base.{
  below_at, ℕ, ◌<◌, ◌≡◌, refl, ap, inl, inr, Bool, true, false, Bool-cases, ◌==◌, ltb, ltb→lt,
  if-cases, Option, none, some, arith,
}
use choochoo_os.Base.Int.{ℤ, pos, negsuc, eqb_ℤ, eqb_ℤ→eq}
use choochoo_os.User.Track.{TrackNode}
use choochoo_os.User.Track.Post.{post_track, for_switches, for_nodes}
use choochoo_os.User.Track.TrackA.{init_tracka}
use choochoo_os.User.Track.TrackB.{init_trackb}
use choochoo_os.User.TrackWalk.{track_node_by_branch_id}
use choochoo_os.User.TrainData.{
  TrainData, train_data_init, zone_getid_by_sensor_id, zone_getid_by_switch_id,
}

abbrev same : Option ℤ → Option ℤ → Bool
same none none = true
same (some a) (some b) = eqb_ℤ a b
same _ _ = false

same→eq : (a b : Option ℤ) → same a b ≡ true → a ≡ b
same→eq none none h = refl
same→eq none (some b) h = absurd (ground arith)
same→eq (some a) none h = absurd (ground arith)
same→eq (some a) (some b) h = ap (λ z. some z) (eqb_ℤ→eq a b h)

-- The zone that the track graph has for what a lookup found; -1 for nothing.
abbrev pub zone_of : (ℕ → TrackNode) → Option ℕ → Option ℤ
zone_of track none = some (negsuc 0)
zone_of track (some n) = some (track n).zone

abbrev pub Agrees : TrainData → Type 0
Agrees s =
    ((i : ℕ) → i < 80 → zone_getid_by_sensor_id s (pos i) ≡ some (s.traintrack i).zone)
    × ((id : ℤ) → zone_getid_by_switch_id s id ≡ zone_of s.traintrack (track_node_by_branch_id id))

module _ (s : TrainData) where
  abbrev sensor_agrees : ℕ → Bool
  sensor_agrees i = same (zone_getid_by_sensor_id s (pos i)) (some (s.traintrack i).zone)

  abbrev switch_agrees : ℕ → Bool
  switch_agrees id =
      same (zone_getid_by_switch_id s (pos id))
        (zone_of s.traintrack (track_node_by_branch_id (pos id)))

  by_number :
      ((id : ℕ) → id < 157 → switch_agrees id ≡ true)
      → (id : ℤ) → zone_getid_by_switch_id s id ≡ zone_of s.traintrack (track_node_by_branch_id id)
  unfolding zone_getid_by_switch_id track_node_by_branch_id
  by_number all (negsuc n) = refl
  by_number all (pos id) = elim (Bool-cases (ltb id 157)) [
    | inl h ↦
        same→eq (zone_getid_by_switch_id s (pos id))
          (zone_of s.traintrack (track_node_by_branch_id (pos id))) (all id (ltb→lt id 157 h))
    | inr h ↦ ground arith
  ]

  agrees :
      ((i : ℕ) → i < 80 → sensor_agrees i ≡ true)
      → ((id : ℕ) → id < 157 → switch_agrees id ≡ true)
      → Agrees s
  agrees sensors switches = (
    λ i h. same→eq (zone_getid_by_sensor_id s (pos i)) (some (s.traintrack i).zone) (sensors i h),
    by_number switches,
  )

abbrev on_track_a : TrainData
on_track_a = record { traintrack = init_tracka; track_type = 0 }

abbrev on_track_b : TrainData
on_track_b = record { traintrack = init_trackb; track_type = 1 }

track_a-Agrees : Agrees on_track_a
unfolding zone_getid_by_sensor_id zone_getid_by_switch_id track_node_by_branch_id post_track
    for_switches for_nodes
track_a-Agrees =
    agrees on_track_a (below_at 80 (sensor_agrees on_track_a) refl)
      (below_at 157 (switch_agrees on_track_a) refl)

track_b-Agrees : Agrees on_track_b
unfolding zone_getid_by_sensor_id zone_getid_by_switch_id track_node_by_branch_id post_track
    for_switches for_nodes
track_b-Agrees =
    agrees on_track_b (below_at 80 (sensor_agrees on_track_b) refl)
      (below_at 157 (switch_agrees on_track_b) refl)

-- Whichever track is chosen at the start, the zone that zone_getid_by_sensor_id gives for a sensor is the
-- zone of its node on the track, and the zone that zone_getid_by_switch_id gives for a number is that of
-- the turnout which track_node_by_branch_id finds for it, and -1 where it finds none.
pub zones_agree : (ch : ℕ) → Agrees (train_data_init ch)
unfolding train_data_init
zones_agree ch = if-cases Agrees (ch == b'A') (λ _. track_a-Agrees) (λ _. track_b-Agrees)
