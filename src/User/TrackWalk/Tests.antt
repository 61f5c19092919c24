-- ===== src/User/TrackWalk/Tests.antt =====
-- The sensor ahead of A1 and the one behind it on track A, and turnout 153.
use choochoo_os.Base.{◌≡◌, refl, inl, none, some, arith}
use choochoo_os.Base.Int.{ℤ, pos}
use choochoo_os.User.Switch.{SwitchMode, switch_mode_s}
use choochoo_os.User.Track.Post.{post_track, for_switches, for_nodes}
use choochoo_os.User.Track.TrackA.{init_tracka}
use choochoo_os.User.NextSensor.{Next, find_next_sensor}
use choochoo_os.User.TrackWalk.{
  track_node_by_branch_id, track_next_edge, track_next_node, sensor_from, track_next_sensor,
  track_prev_sensor,
}
use choochoo_os.User.TrackWalk.Agree.{sensor_of, track_next_sensor-find_next_sensor}
use choochoo_os.User.TrackWalk.Branches.{Branch, track_node_by_branch_id-Branch}

abbrev straight : ℤ → SwitchMode
straight _ = switch_mode_s

-- Node 44 is ahead; the track ends on the other side, where track_prev_sensor reads through a null pointer.
ahead_of_a1 : track_next_sensor 7 init_tracka straight (some 0) ≡ some (some 44)
unfolding track_next_sensor sensor_from track_next_node track_next_edge post_track for_switches
    for_nodes
ahead_of_a1 = refl

behind_a1_is_null : track_prev_sensor 7 init_tracka straight 0 ≡ some none
unfolding track_prev_sensor track_next_sensor sensor_from track_next_node track_next_edge post_track
    for_switches for_nodes
behind_a1_is_null = refl

track_next_sensor-find_next_sensor_example :
    (r : Next) × (find_next_sensor 6 init_tracka straight 0 (pos 0) ≡ some r)
    × (track_next_sensor 7 init_tracka straight (some 0) ≡ some (sensor_of r))
track_next_sensor-find_next_sensor_example =
    track_next_sensor-find_next_sensor init_tracka straight 0 (inl refl) (omega arith)

track_node_by_branch_id-Branch_example :
    (track_node_by_branch_id (pos 153) ≡ some 116 → Branch init_tracka 153 116)
    × (Branch init_tracka 153 116 → track_node_by_branch_id (pos 153) ≡ some 116)
track_node_by_branch_id-Branch_example =
    track_node_by_branch_id-Branch init_tracka 153 116 (inl refl)
