-- ===== src/User/Track.antt =====
-- user/traintrack/track_node.h and track_data.h: the nodes and edges of the track. A pointer to a node
-- is its index in the array of nodes, a pointer to an edge its node and its place among the node's. The
-- null pointer is the index `track_max`, of no node, and a null name is `none`.
pub mod Post
pub mod Linked
pub mod TrackA
pub mod TrackB
pub mod Mirror
mod Tests
use Prim.Native.String.{String}
use choochoo_os.Base.{
  codes, ℕ, zero, suc, ◌==◌, if◌then◌else◌, Bool, true, false, Option, none, some, List, [], ◌∷◌,
}
use choochoo_os.Base.Int.{ℤ, pos}

pub data NodeType : Type 0 where
  node_none node_sensor node_branch node_merge node_enter node_exit : NodeType

pub data EdgeType : Type 0 where
  edge_forward edge_reverse : EdgeType

abbrev pub dir_ahead : ℕ
dir_ahead = 0

abbrev pub dir_straight : ℕ
dir_straight = 0

abbrev pub dir_curved : ℕ
dir_curved = 1

abbrev pub dir_reverse : ℕ
dir_reverse = 2

abbrev pub track_max : ℕ
track_max = 144

pub record EdgeRef : Type 0 where
  pub node : ℕ
  pub dir : ℕ

pub record TrackEdge : Type 0 where
  pub reverse : EdgeRef
  pub src : ℕ
  pub dest : ℕ
  pub dist : ℤ
  pub type : EdgeType

pub record TrackNode : Type 0 where
  pub name : Option (List ℕ)
  pub type : NodeType
  pub num : ℤ
  pub reverse : ℕ
  pub edge : ℕ → TrackEdge
  pub zone : ℤ

abbrev pub is_sensor : NodeType → Bool
is_sensor node_sensor = true
is_sensor _ = false

-- What memset leaves.
abbrev pub zero_edge : TrackEdge
zero_edge = record {
  reverse = record { node = track_max; dir = 0 };
  src = track_max;
  dest = track_max;
  dist = pos 0;
  type = edge_forward;
}

abbrev pub zero_node : TrackNode
zero_node = record {
  name = none;
  type = node_none;
  num = pos 0;
  reverse = track_max;
  edge = λ _. zero_edge;
  zone = pos 0;
}

-- The edge from `src` to `dest`, whose reverse is the edge at the place `dir` of `node`.
abbrev pub edge_to : ℕ → ℕ → ℕ → ℕ → ℕ → TrackEdge
edge_to src dest dist node dir = record zero_edge {
  reverse = record { node = node; dir = dir };
  src = src;
  dest = dest;
  dist = pos dist;
}

-- The edges of a node with one or two.
abbrev pub ahead : TrackEdge → ℕ → TrackEdge
ahead e d = if d == dir_ahead then e else zero_edge

abbrev pub straight_curved : TrackEdge → TrackEdge → ℕ → TrackEdge
straight_curved e c d = if d == dir_straight then e else if d == dir_curved then c else zero_edge

abbrev pub at_end : ℕ → TrackEdge
at_end _ = zero_edge

abbrev pub node : String → NodeType → ℤ → ℕ → (ℕ → TrackEdge) → TrackNode
node name type num reverse edge = record zero_node {
  name = some (codes name);
  type = type;
  num = num;
  reverse = reverse;
  edge = edge;
}

-- The entry at an index, and `d` behind the last.
abbrev pub get_or {ℓ} : {A : Type ℓ} → A → List A → ℕ → A
get_or d [] i = d
get_or d (x ∷ xs) zero = x
get_or d (x ∷ xs) (suc i) = get_or d xs i
