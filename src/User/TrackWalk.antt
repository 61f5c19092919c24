-- ===== src/User/TrackWalk.antt =====
-- user/traintrack/track_data.c: the functions that follow the track from a node. `none` is the null
-- pointer, `some` a node by its index or an edge by what it holds.
pub mod Agree
pub mod Branches
mod Tests
use choochoo_os.Base.{
  ℕ, zero, suc, ◌+◌, ◌-◌, ◌*◌, Bool, true, false, ◌&&◌, ◌==◌, leb, Option, none, some,
  if◌then◌else◌,
}
use choochoo_os.Base.Int.{ℤ, pos, negsuc, eqb_ℤ}
use choochoo_os.User.Switch.{SwitchMode, switch_mode_s, switch_mode_c, switch_mode_unknown}
use choochoo_os.User.Track.{
  TrackNode, TrackEdge, EdgeType, EdgeRef, edge_forward, edge_reverse, NodeType, node_none,
  node_sensor, node_branch, node_merge, node_enter, node_exit, dir_ahead, dir_straight, dir_curved,
  track_max,
}

unfoldable pub track_node_by_branch_id : ℤ → Option ℕ
track_node_by_branch_id (pos id) =
    if leb 1 id && leb id 18
    then some (80 + (id - 1) * 2)
    else if leb 153 id && leb id 156
    then some (116 + (id - 153) * 2)
    else none
track_node_by_branch_id (negsuc _) = none

abbrev pub same_type : EdgeType → EdgeType → Bool
same_type edge_forward edge_forward = true
same_type edge_reverse edge_reverse = true
same_type _ _ = false

abbrev pub same_edge : EdgeRef → EdgeRef → Bool
same_edge a b = (a.node == b.node) && (a.dir == b.dir)

unfoldable pub track_edge_cmp : TrackEdge → TrackEdge → Bool
track_edge_cmp a b =
    same_type a.type b.type
    && ((a.src == b.src)
        && ((a.dest == b.dest) && (eqb_ℤ a.dist b.dist && same_edge a.reverse b.reverse)))

abbrev pub next_of_branch : TrackNode → SwitchMode → Option TrackEdge
next_of_branch n switch_mode_s = some (n.edge dir_straight)
next_of_branch n switch_mode_c = some (n.edge dir_curved)
next_of_branch n switch_mode_unknown = none

abbrev pub next_of_type : TrackNode → (ℤ → SwitchMode) → NodeType → Option TrackEdge
next_of_type n modes node_sensor = some (n.edge dir_ahead)
next_of_type n modes node_merge = some (n.edge dir_ahead)
next_of_type n modes node_enter = some (n.edge dir_ahead)
next_of_type n modes node_branch = next_of_branch n (modes n.num)
next_of_type n modes node_exit = none
next_of_type n modes node_none = none

unfoldable pub track_next_edge : (ℕ → TrackNode) → (ℤ → SwitchMode) → Option ℕ → Option TrackEdge
track_next_edge track modes none = none
track_next_edge track modes (some i) = next_of_type (track i) modes (track i).type

abbrev pub pointer : ℕ → Option ℕ
pointer i = if i == track_max then none else some i

abbrev pub dest_of : Option TrackEdge → Option ℕ
dest_of none = none
dest_of (some e) = pointer e.dest

unfoldable pub track_next_node : (ℕ → TrackNode) → (ℤ → SwitchMode) → Option ℕ → Option ℕ
unfolding track_next_edge
track_next_node track modes n = dest_of (track_next_edge track modes n)

-- A node of the loop, and what the loop gives from the next node on.
abbrev pub stop_at : NodeType → ℕ → Option (Option ℕ) → Option (Option ℕ)
stop_at node_exit i rest = some none
stop_at node_sensor i rest = some (some i)
stop_at _ i rest = rest

-- The loop, on fuel: the outer `none` is fuel that ran out.
unfoldable pub sensor_from : ℕ → (ℕ → TrackNode) → (ℤ → SwitchMode) → Option ℕ → Option (Option ℕ)
unfolding track_next_node
sensor_from zero track modes n = none
sensor_from (suc k) track modes none = some none
sensor_from (suc k) track modes (some i) =
    stop_at (track i).type i (sensor_from k track modes (track_next_node track modes (some i)))

unfoldable pub track_next_sensor :
    ℕ → (ℕ → TrackNode) → (ℤ → SwitchMode) → Option ℕ → Option (Option ℕ)
unfolding sensor_from track_next_node
track_next_sensor k track modes n = sensor_from k track modes (track_next_node track modes n)

-- `reverse` is read whatever the search returns: the inner `none` is the read through the null pointer.
unfoldable pub track_prev_sensor : ℕ → (ℕ → TrackNode) → (ℤ → SwitchMode) → ℕ → Option (Option ℕ)
unfolding track_next_sensor
track_prev_sensor k track modes i =
    elim (track_next_sensor k track modes (some (track i).reverse)) [
      | none ↦ none
      | some none ↦ some none
      | some (some j) ↦ some (some (track j).reverse)
    ]
