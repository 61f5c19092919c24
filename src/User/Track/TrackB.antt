-- ===== src/User/Track/TrackB.antt =====
-- user/traintrack/track_data.c: track B, as init_trackb sets it up.
mod Sensors
mod Turnouts
use choochoo_os.Base.{ℕ, List, [], ◌∷◌, ◌++◌}
use choochoo_os.Base.Int.{ℤ, pos, negsuc}
use choochoo_os.User.Track.{TrackNode, zero_node, get_or}
use choochoo_os.User.Track.Post.{post_track}
use choochoo_os.User.Track.TrackB.Sensors.{sensors_a, sensors_b, sensors_c, sensors_d, sensors_e}
use choochoo_os.User.Track.TrackB.Turnouts.{turnouts_1_7, turnouts_8_14, turnouts_15_22, ends}

abbrev pub sensor_zones : List ℤ
sensor_zones =
    pos 27
    ∷ pos 10
    ∷ pos 9
    ∷ pos 10
    ∷ pos 2
    ∷ pos 3
    ∷ pos 3
    ∷ pos 1
    ∷ pos 3
    ∷ pos 0
    ∷ pos 29
    ∷ pos 3
    ∷ pos 28
    ∷ pos 10
    ∷ pos 10
    ∷ pos 29
    ∷ pos 7
    ∷ pos 25
    ∷ pos 7
    ∷ pos 8
    ∷ pos 11
    ∷ pos 15
    ∷ negsuc 0
    ∷ pos 0
    ∷ negsuc 0
    ∷ pos 2
    ∷ negsuc 0
    ∷ pos 1
    ∷ pos 24
    ∷ pos 13
    ∷ pos 5
    ∷ pos 9
    ∷ pos 13
    ∷ pos 8
    ∷ pos 4
    ∷ pos 26
    ∷ pos 5
    ∷ pos 4
    ∷ pos 3
    ∷ pos 4
    ∷ pos 7
    ∷ pos 5
    ∷ pos 10
    ∷ pos 11
    ∷ pos 10
    ∷ pos 14
    ∷ pos 4
    ∷ pos 6
    ∷ pos 17
    ∷ pos 13
    ∷ pos 15
    ∷ pos 16
    ∷ pos 20
    ∷ pos 19
    ∷ pos 18
    ∷ pos 20
    ∷ pos 20
    ∷ pos 21
    ∷ pos 4
    ∷ pos 6
    ∷ pos 23
    ∷ pos 25
    ∷ pos 23
    ∷ pos 24
    ∷ pos 12
    ∷ pos 13
    ∷ pos 16
    ∷ pos 17
    ∷ pos 16
    ∷ pos 19
    ∷ pos 14
    ∷ pos 18
    ∷ pos 22
    ∷ pos 20
    ∷ pos 4
    ∷ pos 21
    ∷ pos 22
    ∷ pos 23
    ∷ pos 12
    ∷ pos 11
    ∷ []

abbrev pub switch_zones : List ℤ
switch_zones =
    pos 3
    ∷ pos 3
    ∷ pos 3
    ∷ pos 10
    ∷ pos 4
    ∷ pos 4
    ∷ pos 4
    ∷ pos 20
    ∷ pos 20
    ∷ pos 16
    ∷ pos 10
    ∷ pos 10
    ∷ pos 11
    ∷ pos 10
    ∷ pos 5
    ∷ pos 7
    ∷ pos 23
    ∷ pos 4
    ∷ pos 13
    ∷ pos 13
    ∷ pos 13
    ∷ pos 13
    ∷ []

abbrev pub nodes : List TrackNode
nodes =
    sensors_a ++ sensors_b ++ sensors_c ++ sensors_d ++ sensors_e ++ turnouts_1_7 ++ turnouts_8_14
    ++ turnouts_15_22 ++ ends

abbrev pub init_trackb : ℕ → TrackNode
init_trackb =
    post_track (get_or zero_node nodes) (get_or (pos 0) sensor_zones) (get_or (pos 0) switch_zones)
