-- ===== src/User/NextSensor.antt =====
-- user/trainsys-server/server.c: find_next_sensor, which follows the track ahead as the turnouts stand.
pub mod Ahead
mod Tests
use choochoo_os.Base.{ℕ, zero, suc, ◌+◌, Bool, true, false, Option, none, some, if◌then◌else◌, List}
use choochoo_os.Base.Int.{ℤ, pos, ◌+ℤ◌}
use choochoo_os.User.Switch.{SwitchMode, switch_mode_s, switch_mode_c, switch_mode_unknown}
use choochoo_os.User.Track.{
  TrackNode, TrackEdge, NodeType, node_none, node_sensor, node_branch, node_exit, is_sensor,
  dir_ahead, dir_straight, dir_curved,
}

-- The edge of a branch by the answer of the switch server.
abbrev pub edge_by_mode : TrackNode → SwitchMode → Option TrackEdge
edge_by_mode n switch_mode_unknown = none
edge_by_mode n switch_mode_c = some (n.edge dir_curved)
edge_by_mode n switch_mode_s = some (n.edge dir_straight)

-- The edge that a train takes from a node; `none` where it is unknown.
abbrev pub edge_by_type : TrackNode → (ℤ → SwitchMode) → NodeType → Option TrackEdge
edge_by_type n modes node_exit = none
edge_by_type n modes node_none = none
edge_by_type n modes node_branch = edge_by_mode n (modes n.num)
edge_by_type n modes _ = some (n.edge dir_ahead)

abbrev pub edge_ahead : (ℕ → TrackNode) → (ℤ → SwitchMode) → ℕ → Option TrackEdge
edge_ahead track modes i = edge_by_type (track i) modes (track i).type

-- Where the walk ends, whether it is unknown where the train goes, and the distance added up.
pub record Next : Type 0 where
  pub node : ℕ
  pub is_unknown : Bool
  pub dist : ℤ

-- `none` is fuel that ran out.
unfoldable pub find_next_sensor : ℕ → (ℕ → TrackNode) → (ℤ → SwitchMode) → ℕ → ℤ → Option Next
find_next_sensor zero track modes cur dist_to_next = none
find_next_sensor (suc k) track modes cur dist_to_next = elim (edge_ahead track modes cur) [
  | none ↦ some (record { node = cur; is_unknown = true; dist = dist_to_next })
  | some e ↦
      let rest = find_next_sensor k track modes e.dest (dist_to_next +ℤ e.dist) in
      if is_sensor (track e.dest).type
      then some (record { node = e.dest; is_unknown = false; dist = dist_to_next +ℤ e.dist })
      else rest
]
