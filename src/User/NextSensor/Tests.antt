-- ===== src/User/NextSensor/Tests.antt =====
-- The next sensor behind A1 on track A.
use choochoo_os.Base.{◌≡◌, refl, inl, false, some, arith}
use choochoo_os.Base.Int.{ℤ, pos}
use choochoo_os.User.Switch.{SwitchMode, switch_mode_s}
use choochoo_os.User.Track.Post.{post_track, for_switches, for_nodes}
use choochoo_os.User.Track.TrackA.{init_tracka}
use choochoo_os.User.NextSensor.{find_next_sensor}
use choochoo_os.User.NextSensor.Ahead.{Found, find_next_sensor_ends}

abbrev straight : ℤ → SwitchMode
straight _ = switch_mode_s

-- The sensor in the middle, over two merges.
behind_a1 :
    find_next_sensor 6 init_tracka straight 0 (pos 0)
    ≡ some (record { node = 44; is_unknown = false; dist = pos 462 })
unfolding find_next_sensor post_track for_switches for_nodes
behind_a1 = refl

find_next_sensor_ends_example :
    Found init_tracka straight 0 (pos 0) (find_next_sensor 6 init_tracka straight 0 (pos 0))
find_next_sensor_ends_example =
    find_next_sensor_ends init_tracka straight 0 (pos 0) (inl refl) (omega arith)
