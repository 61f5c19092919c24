-- ===== src/User/Track/Tests.antt =====
-- Nodes of track A as post_track leaves them.
use choochoo_os.Base.{arith}
use choochoo_os.Base.Int.{pos}
use choochoo_os.User.Track.{get_or, zero_node}
use choochoo_os.User.Track.Post.{post_track}
use choochoo_os.User.Track.Linked.{Linked, post_track-Linked}
use choochoo_os.User.Track.TrackA.{nodes, sensor_zones, switch_zones}

-- Branch 3, in the zone of the turnout 3.
post_track-Linked_example : Linked 84 (pos 3) (get_or zero_node nodes 84) (
    post_track
      (get_or zero_node nodes)
      (get_or (pos 0) sensor_zones)
      (get_or (pos 0) switch_zones)
      84)
post_track-Linked_example =
    post_track-Linked (get_or zero_node nodes) (get_or (pos 0) sensor_zones)
      (get_or (pos 0) switch_zones) 84 (omega arith)
