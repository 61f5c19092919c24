-- ===== src/User/Track/Mirror.antt =====
-- user/traintrack/track_data.c: on both tracks every edge has its mirror image among the edges of the
-- opposite direction.
use choochoo_os.Base.{below_at, ℕ, ◌<◌, ◌≡◌, refl, Bool, true, ltb, ◌==◌, ◌&&◌, List, [], ◌∷◌}
use choochoo_os.Base.Int.{pos, negsuc, eqb_ℤ, ltb_ℤ}
use choochoo_os.User.Track.{
  NodeType, node_sensor, node_merge, node_branch, node_enter, TrackNode, dir_ahead, dir_straight,
  dir_curved, track_max,
}
use choochoo_os.User.Track.Post.{post_track, for_switches, for_nodes}
use choochoo_os.User.Track.TrackA.{init_tracka}
use choochoo_os.User.Track.TrackB.{init_trackb}

-- The places of the edges that a node of a type has, besides the one that turns back.
abbrev pub edges_of : NodeType → List ℕ
edges_of node_sensor = dir_ahead ∷ []
edges_of node_merge = dir_ahead ∷ []
edges_of node_enter = dir_ahead ∷ []
edges_of node_branch = dir_straight ∷ dir_curved ∷ []
edges_of _ = []

-- The edge at the place `d` of the node `i` starts there and leads to another node, not further than
-- 1000 mm; its reverse is the edge from the reverse node of its end to the reverse node of `i`, as long.
abbrev pub mirrored : (ℕ → TrackNode) → ℕ → ℕ → Bool
mirrored t i d =
    let e = (t i).edge d in
    let r = (t e.reverse.node).edge e.reverse.dir in
    e.src == i
    && (ltb e.dest track_max
        && (eqb_ℤ r.dist e.dist
            && (ltb_ℤ (negsuc 0) e.dist
                && (ltb_ℤ e.dist (pos 1000)
                    && (r.src == (t e.dest).reverse
                        && (r.dest == (t i).reverse
                            && (r.reverse.node == i && r.reverse.dir == d)))))))

abbrev pub all_of : (ℕ → Bool) → List ℕ → Bool
all_of p [] = true
all_of p (d ∷ ds) = p d && all_of p ds

abbrev pub node_mirrored : (ℕ → TrackNode) → ℕ → Bool
node_mirrored t i = (t (t i).reverse).reverse == i && all_of (mirrored t i) (edges_of (t i).type)

-- Track A is 144 nodes and track B 140. On both, the reverse of a node's reverse is the node, and
-- every forward edge of a sensor, branch, merge or enter node leads from it to a node of the array, is
-- not negative and below 1000 mm long, and has as its reverse the edge of the same length from the
-- reverse node of its end to that of its start, whose reverse is the edge again.
pub tracks_mirrored :
    ((i : ℕ) → i < 144 → node_mirrored init_tracka i ≡ true)
    × ((i : ℕ) → i < 140 → node_mirrored init_trackb i ≡ true)
unfolding post_track for_switches for_nodes
tracks_mirrored =
    (below_at 144 (node_mirrored init_tracka) refl, below_at 140 (node_mirrored init_trackb) refl)
