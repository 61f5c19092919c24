-- ===== src/User/Pather/Turnouts.antt =====
-- user/pathfinder-server/server.c with user/switch-server/server.c: the turnouts that PatherSimplePath
-- sets lead the train along its path.
pub mod Arms
use mathlib.Core.Path.{subst}
use mathlib.Core.Option.{some-injective}
use choochoo_os.Base.{
  ℕ, zero, suc, ◌≡◌, ◌≢◌, refl, ap, ◌∙◌, sym, ◌⊎◌, inl, inr, Bool, true, false, ◌&&◌, and_left,
  and_right, not_both, Bool-cases, ◌==◌, ==→eq, ==_refl, Option, none, some, if◌then◌else◌,
  if-cases, update, List, [], ◌∷◌, ◌++◌, All, arith,
}
use choochoo_os.Base.Int.{ℤ, pos, eqb_ℤ, eqb_ℤ→eq, eqb_ℤ_refl}
use choochoo_os.User.Switch.{
  SwitchMode, switch_mode_s, switch_mode_c, switch_mode_unknown, Server, get_switch_index, other_of,
  set_switch,
}
use choochoo_os.User.Switch.Pairs.{opposite, set_states, states-set_switch, other_of-ne}
use choochoo_os.User.Track.{
  TrackNode, TrackEdge, EdgeRef, EdgeType, edge_forward, edge_reverse, NodeType, node_none,
  node_sensor, node_branch, node_merge, node_enter, node_exit, dir_ahead, dir_straight, dir_curved,
}
use choochoo_os.User.TrackWalk.{
  same_type, track_edge_cmp, next_of_branch, next_of_type, track_next_edge,
}
use choochoo_os.User.Pather.{
  Output, set_speed, stop, reverse, switch_set, delay, zone_unreserve, zone_unreserve_all_except,
  set_switch_at, set_switches,
}
use choochoo_os.User.Pather.Turnouts.Arms.{Leaves, asked-mode, left, own}

-- The switch server handles the requests.
abbrev pub handled : Output → Server → Server
handled (switch_set n m) s = (set_switch n m s).0
handled (set_speed t v) s = s
handled (stop t) s = s
handled (reverse t) s = s
handled (delay n) s = s
handled (zone_unreserve t z) s = s
handled (zone_unreserve_all_except t z) s = s

abbrev pub handled_all : List Output → Server → Server
handled_all [] s = s
handled_all (o ∷ os) s = handled_all os (handled o s)

-- What SwitchGet answers.
abbrev pub mode_at : Server → ℤ → SwitchMode
mode_at s id = elim (get_switch_index id) [
  | none ↦ switch_mode_unknown
  | some i ↦ s.switch_states i
]

-- An edge leaves its source in the way that its type allows.
abbrev pub IsWay : TrackNode → TrackEdge → NodeType → Type 0
IsWay n e node_sensor = e ≡ n.edge dir_ahead
IsWay n e node_merge = e ≡ n.edge dir_ahead
IsWay n e node_enter = e ≡ n.edge dir_ahead
IsWay n e node_branch =
    ((e ≡ n.edge dir_straight) ⊎ (e ≡ n.edge dir_curved))
    × ((j : ℕ) × (get_switch_index n.num ≡ some j))
IsWay n e node_exit = ⊥
IsWay n e node_none = ⊥

-- The turnouts that a path takes later stay as an earlier edge needs them.
abbrev pub Undisturbed : (ℕ → TrackNode) → TrackEdge → TrackEdge → Type 0
Undisturbed track e f =
    (track e.src).type ≡ node_branch
    → (track f.src).type ≡ node_branch
    → (j : ℕ) (m m' : SwitchMode) → get_switch_index (track e.src).num ≡ some j
    → next_of_branch (track e.src) m ≡ some e
    → next_of_branch (track f.src) m' ≡ some f
    → Leaves j m (track f.src).num m'

abbrev pub IsPath : (ℕ → TrackNode) → List TrackEdge → Type 0
IsPath track [] = Unit
IsPath track (e ∷ es) =
    IsWay (track e.src) e (track e.src).type × All (Undisturbed track e) es × IsPath track es

handled-append :
    (xs ys : List Output) (s : Server)
    → handled_all (xs ++ ys) s ≡ handled_all ys (handled_all xs s)
handled-append [] ys s = refl
handled-append (x ∷ xs) ys s = handled-append xs ys (handled x s)

module _ (track : ℕ → TrackNode) where
  abbrev code_mode : TrackEdge → SwitchMode
  code_mode e =
      if track_edge_cmp ((track e.src).edge dir_straight) e then switch_mode_s else switch_mode_c

  -- One edge, whose turnout is set.
  one_left :
      (e f : TrackEdge) (j : ℕ) (m : SwitchMode) (s : Server) (t : NodeType)
      → (track f.src).type ≡ t
      → IsWay (track f.src) f t
      → ((m' : SwitchMode)
          → t ≡ node_branch
          → next_of_branch (track f.src) m' ≡ some f
          → Leaves j m (track f.src).num m')
      → s.switch_states j ≡ m
      → (handled_all (set_switch_at (track f.src) f t) s).switch_states j ≡ m
  unfolding set_switch_at
  one_left e f j m s node_none ty way l k = k
  one_left e f j m s node_sensor ty way l k = k
  one_left e f j m s node_branch ty way l k =
      left j m (track f.src).num (code_mode f) s
        (l (code_mode f) refl (asked-mode (track f.src) f way.0)) k
  one_left e f j m s node_merge ty way l k = k
  one_left e f j m s node_enter ty way l k = k
  one_left e f j m s node_exit ty way l k = k

  left_by_path :
      (e : TrackEdge) (es : List TrackEdge) (j : ℕ) (m : SwitchMode) (s : Server)
      → (track e.src).type ≡ node_branch
      → get_switch_index (track e.src).num ≡ some j
      → next_of_branch (track e.src) m ≡ some e
      → All (Undisturbed track e) es
      → IsPath track es
      → s.switch_states j ≡ m
      → (handled_all (set_switches track es) s).switch_states j ≡ m
  unfolding set_switches
  left_by_path e [] j m s ty ix nx u p k = k
  left_by_path e (f ∷ es) j m s ty ix nx u p k =
      ap (λ v. v.switch_states j)
        (handled-append (set_switch_at (track f.src) f (track f.src).type) (set_switches track es)
          s)
      ∙ left_by_path e es j m (handled_all (set_switch_at (track f.src) f (track f.src).type) s) ty
          ix nx u.1 p.2
          (one_left e f j m s (track f.src).type refl p.0 (λ m' tf. u.0 ty tf j m m' ix nx) k)

  -- The train takes the edge.
  abbrev pub Takes : Server → TrackEdge → Type 0
  Takes s e = track_next_edge track (mode_at s) (some e.src) ≡ some e

  takes_first :
      (e : TrackEdge) (es : List TrackEdge) (s : Server) (t : NodeType)
      → (track e.src).type ≡ t
      → IsWay (track e.src) e t
      → All (Undisturbed track e) es
      → IsPath track es
      → next_of_type
          (track e.src)
          (mode_at
            (handled_all (set_switches track es) (handled_all (set_switch_at (track e.src) e t) s)))
          t
        ≡ some e
  unfolding set_switch_at
  takes_first e es s node_none ty way u p = absurd way
  takes_first e es s node_sensor ty way u p = ap (λ x. some x) (sym way)
  takes_first e es s node_branch ty way u p =
      ap
        (λ o.
          next_of_branch (track e.src)
            (elim o [ none ↦ switch_mode_unknown | some i ↦ s'.switch_states i ]))
        way.1.1
      ∙ ap (next_of_branch (track e.src)) (
          left_by_path e es way.1.0 (code_mode e) (set_switch num (code_mode e) s).0 ty way.1.1
            asked u p (own way.1.0 (code_mode e) num s way.1.1))
      ∙ asked
    where
      num : ℤ
      num = (track e.src).num

      asked : next_of_branch (track e.src) (code_mode e) ≡ some e
      asked = asked-mode (track e.src) e way.0

      s' : Server
      s' = handled_all (set_switches track es) (set_switch num (code_mode e) s).0
  takes_first e es s node_merge ty way u p = ap (λ x. some x) (sym way)
  takes_first e es s node_enter ty way u p = ap (λ x. some x) (sym way)
  takes_first e es s node_exit ty way u p = absurd way

-- When the switch server has handled what PatherSimplePath sends for a path, the track leads along every
-- edge of the path, whatever the turnouts were; each edge leaves its node in the way of its type, and no
-- later edge is to start at the same turnout with the other arm, nor at the other turnout of its pair with
-- the mode that moves it.
pub set_switches-Takes :
    (track : ℕ → TrackNode) (es : List TrackEdge) (s : Server)
    → IsPath track es
    → All (Takes track (handled_all (set_switches track es) s)) es
unfolding set_switches track_next_edge
set_switches-Takes track [] s p = tt
set_switches-Takes track (e ∷ es) s p =
    let first = set_switch_at (track e.src) e (track e.src).type in
    subst (λ v. All (Takes track v) (e ∷ es)) (sym (handled-append first (set_switches track es) s))
      (
        takes_first track e es s (track e.src).type refl p.0 p.1 p.2,
        set_switches-Takes track es (handled_all first s) p.2,
      )
