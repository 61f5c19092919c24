-- ===== src/User/Track/Linked.antt =====
-- user/traintrack/track_data.c: the nodes that post_track leaves, field by field.
use choochoo_os.Base.{
  ℕ, ◌<◌, ◌≡◌, ◌≢◌, ◌==◌, refl, Bool, false, ◌||◌, if◌then◌else◌, ap, arith, update,
}
use choochoo_os.Base.Int.{ℤ, pos}
use choochoo_os.User.Track.{
  NodeType, node_sensor, node_merge, node_branch, TrackNode, TrackEdge, edge_reverse, edge_forward,
  dir_ahead, dir_curved, dir_reverse, track_max,
}
use choochoo_os.User.Track.Post.{
  post_track, set_types, set_edges, set_zone, turn_back, zone_at, post_track-set,
}

-- Whether a node of the type has an edge at the place: a sensor and a merge have one ahead, a branch
-- one straight on and one curved.
abbrev pub has_edge : NodeType → ℕ → Bool
has_edge node_sensor d = d == dir_ahead
has_edge node_merge d = d == dir_ahead
has_edge node_branch d = (d == dir_ahead) || (d == dir_curved)
has_edge _ d = false

-- The node `i`, which was `n`, in the zone `z`.
pub record Linked (i : ℕ) (z : ℤ) (n n' : TrackNode) : Type 0 where
  pub name : n'.name ≡ n.name
  pub type : n'.type ≡ n.type
  pub num : n'.num ≡ n.num
  pub reverse : n'.reverse ≡ n.reverse
  pub zone : n'.zone ≡ z
  pub back_src : (n'.edge dir_reverse).src ≡ i
  pub back_dest : (n'.edge dir_reverse).dest ≡ n.reverse
  pub back_dist : (n'.edge dir_reverse).dist ≡ pos 0
  pub back_type : (n'.edge dir_reverse).type ≡ edge_reverse
  pub back_node : (n'.edge dir_reverse).reverse.node ≡ n.reverse
  pub back_dir : (n'.edge dir_reverse).reverse.dir ≡ dir_reverse
  pub ways :
      (d : ℕ)
      → d ≢ dir_reverse
      → n'.edge d
        ≡ record (n.edge d) { type = if has_edge n.type d then edge_forward else (n.edge d).type }

set_types-back : (t : NodeType) (e : ℕ → TrackEdge) → set_types t e dir_reverse ≡ e dir_reverse
set_types-back node_sensor e = refl
set_types-back node_merge e = refl
set_types-back node_branch e = refl
set_types-back _ e = refl

-- The edges of a node, with the type that its type gives them.
abbrev typed : NodeType → (ℕ → TrackEdge) → ℕ → TrackEdge
typed t e d = record (e d) { type = if has_edge t d then edge_forward else (e d).type }

set_types-typed :
    (t : NodeType) (e : ℕ → TrackEdge) (back : TrackEdge) (d : ℕ)
    → d ≢ dir_reverse
    → set_types t (update e dir_reverse back) d ≡ typed t e d
set_types-typed node_sensor e back d ne = ground arith
set_types-typed node_merge e back d ne = ground arith
set_types-typed node_branch e back d ne = ground arith
set_types-typed _ e back d ne = ground arith

set_edges-Linked : (i : ℕ) (z : ℤ) (n : TrackNode) → Linked i z n (set_zone z (set_edges i n))
set_edges-Linked i z n = record {
  name = refl;
  type = refl;
  num = refl;
  reverse = refl;
  zone = refl;
  back_src = ap (λ e. e.src) back;
  back_dest = ap (λ e. e.dest) back;
  back_dist = ap (λ e. e.dist) back;
  back_type = ap (λ e. e.type) back;
  back_node = ap (λ e. e.reverse.node) back;
  back_dir = ap (λ e. e.reverse.dir) back;
  ways = λ d ne. set_types-typed n.type n.edge (turn_back i n.reverse) d ne;
}
  where
    back : (set_edges i n).edge dir_reverse ≡ turn_back i n.reverse
    back = set_types-back n.type _

-- post_track leaves every node of the array with its name, type, number and reverse node, and in the
-- zone of its table, or -1 at the ends. Its reverse edge leads from the node to its reverse node, is
-- 0 long, of the reverse type and paired with the reverse edge of that node. The edges that its type
-- gives it are of the forward type, and nothing else of them or of the places without an edge changes.
pub post_track-Linked :
    (track : ℕ → TrackNode) (sensors switches : ℕ → ℤ) (i : ℕ)
    → i < track_max
    → Linked i (zone_at sensors switches i) (track i) (post_track track sensors switches i)
post_track-Linked track sensors switches i h =
    rw (post_track-set track sensors switches i h)
      (set_edges-Linked i (zone_at sensors switches i) (track i))
