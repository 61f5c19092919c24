-- ===== src/User/Djikstra.antt =====
-- user/pathfinder-server/helpers.c: the shortest route between two nodes of the track.
mod Pick
mod Relax
mod Rounds
mod Sound
mod Kept
mod Shortest
mod Tracing
mod Route
mod Tracks
mod Tests
use choochoo_os.Base.{
  ℕ, zero, suc, ◌+◌, ◌%◌, ◌^◌, Bool, true, false, not, ◌&&◌, Option, none, some, ltb, leb, ◌==◌,
  if◌then◌else◌, update, List, [], ◌∷◌, ◌++◌,
}
use choochoo_os.Base.Int.{ℤ, pos, negsuc, eqb_ℤ, ltb_ℤ, ◌+ℤ◌, ◌-ℤ◌, to_u32}
use choochoo_os.User.Track.{
  TrackNode, TrackEdge, EdgeRef, NodeType, node_sensor, node_branch, node_merge, is_sensor,
  dir_ahead, dir_straight, dir_curved, dir_reverse, track_max,
}

abbrev pub inf : ℕ
inf = 2147483647

-- The arguments of do_djikstra. Each node is expanded at most once, and `zone_is_reserved` gives what
-- the zone server then answers for the node and its zone.
pub record Query : Type 0 where
  pub track : ℕ → TrackNode
  pub source_node : ℕ
  pub dest_node : ℕ
  pub allow_reversal : Bool
  pub check_reserve : Bool
  pub zone_is_reserved : ℕ → ℤ → Bool

pub record Search : Type 0 where
  pub dist : ℕ → ℕ
  pub prev : ℕ → ℕ
  pub edges : ℕ → Option EdgeRef
  pub visited : ℕ → Bool

-- An edge that may be taken: where it starts, its place there, where it leads, how far.
pub record Way : Type 0 where
  pub node : ℕ
  pub dir : ℕ
  pub next : ℕ
  pub weight : ℕ

abbrev pub ref : Way → EdgeRef
ref e = record { node = e.node; dir = e.dir }

-- 2147483646 is NONE.
abbrev pub start : Query → Search
start q = record {
  dist = update (λ _. inf) q.source_node 0;
  prev = λ _. 2147483646;
  edges = λ _. none;
  visited = λ _. false;
}

abbrev pub is_open : Search → ℕ → Bool
is_open s i = not (s.dist i == inf) && not (s.visited i)

unfoldable pub consider : Search → Option ℕ → ℕ → Option ℕ
consider s none i = if is_open s i then some i else none
consider s (some c) i =
    if is_open s i then (if ltb (s.dist c) (s.dist i) then some c else some i) else some c

-- The loop over the first `n` nodes.
unfoldable pub pick : Search → ℕ → Option ℕ
pick s zero = none
pick s (suc n) = consider s (pick s n) n

abbrev pub along : Query → ℕ → ℕ → Way
along q cur dir =
    let e = (q.track cur).edge dir in
    record { node = cur; dir = dir; next = e.dest; weight = to_u32 e.dist }

abbrev pub back : Query → ℕ → Way
back q cur = record {
  node = cur;
  dir = dir_reverse;
  next = (q.track cur).reverse;
  weight = to_u32 ((q.track cur).edge dir_reverse).dist;
}

unfoldable pub relax : Way → Search → Search
relax e s =
    let through = (s.dist e.node + e.weight) % 2 ^ 32 in
    if ltb through (s.dist e.next)
    then record s {
      dist = update s.dist e.next through;
      prev = update s.prev e.next e.node;
      edges = update s.edges e.next (some (ref e));
    }
    else s

unfoldable pub relax_forwards : Query → ℕ → NodeType → Search → Search
relax_forwards q cur node_sensor s = relax (along q cur dir_ahead) s
relax_forwards q cur node_merge s = relax (along q cur dir_ahead) s
relax_forwards q cur node_branch s =
    relax (along q cur dir_curved) (relax (along q cur dir_straight) s)
relax_forwards q cur _ s = s

unfoldable pub expand : Query → ℕ → Search → Search
expand q cur s =
    let s' = relax_forwards q cur (q.track cur).type s in
    if q.allow_reversal && is_sensor (q.track cur).type then relax (back q cur) s' else s'

unfoldable pub is_blocked : Query → ℕ → Bool
is_blocked q cur =
    let cur_zone = (q.track (q.track cur).reverse).zone in
    q.check_reserve && (not (eqb_ℤ cur_zone (negsuc 0)) && q.zone_is_reserved cur cur_zone)

-- How a round ends: no node is left, it is at the destination, or the search goes on.
pub data Round : Type 0 where
  no_path : Round
  at_dest : ℕ → Search → Round
  go_on : Search → Round

unfoldable pub visit : Query → Search → Option ℕ → Round
visit q s none = no_path
visit q s (some cur) =
    let s' = record s { visited = update s.visited cur true } in
    if cur == q.dest_node
    then at_dest cur s'
    else if cur == (q.track q.dest_node).reverse
    then at_dest cur s'
    else if is_blocked q cur
    then go_on s'
    else go_on (expand q cur s')

unfoldable pub search : ℕ → Query → Search → Option Round
search zero q s = none
search (suc k) q s = elim (visit q s (pick s track_max)) [
  | no_path ↦ some no_path
  | at_dest t s' ↦ some (at_dest t s')
  | go_on s' ↦ search k q s'
]

-- The route as the C array that it is written to, and what the function returns. A write in front of
-- the array is `outside`.
pub data Trace : Type 0 where
  traced : ℤ → (ℕ → Option EdgeRef) → Trace
  outside : Trace
  out_of_fuel : Trace

abbrev pub write_at : ℤ → Option EdgeRef → ℤ → (ℕ → Option EdgeRef) → Trace
write_at (pos i) e tot g = traced tot (update g i e)
write_at (negsuc _) e tot g = outside

abbrev pub write_edge : Option EdgeRef → ℕ → Trace → Trace
write_edge e iter_count (traced tot g) = write_at (tot -ℤ pos iter_count) e tot g
write_edge e iter_count outside = outside
write_edge e iter_count out_of_fuel = out_of_fuel

unfoldable pub do_edge_trace : ℕ → ℕ → ℕ → ℕ → Search → (ℕ → Option EdgeRef) → Trace
do_edge_trace zero cur src iter_count s g = out_of_fuel
do_edge_trace (suc k) cur src iter_count s g =
    let rest = do_edge_trace k (s.prev cur) src (iter_count + 1) s g in
    if cur == src
    then traced (pos iter_count -ℤ pos 1) g
    else if ltb 130 iter_count
    then traced (negsuc 0) g
    else write_edge (s.edges cur) iter_count rest

unfoldable pub finish : Query → (ℕ → Option EdgeRef) → Option Round → Trace
finish q g (some (at_dest t s)) = elim (do_edge_trace 132 t q.source_node 0 s g) [
  | traced tot g' ↦ traced (tot +ℤ pos 1) g'
  | outside ↦ outside
  | out_of_fuel ↦ out_of_fuel
]
finish q g (some _) = traced (negsuc 0) g
finish q g none = out_of_fuel

-- 145 rounds are enough: all but the last visit another of the 144 nodes.
abbrev pub do_djikstra : Query → (ℕ → Option EdgeRef) → Trace
do_djikstra q edge_graph = finish q edge_graph (search 145 q (start q))
