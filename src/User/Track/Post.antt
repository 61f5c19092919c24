-- ===== src/User/Track/Post.antt =====
-- user/traintrack/track_data.c: post_track, and the functions that look nodes and edges up.
use mathlib.Core.Path.{subst}
use choochoo_os.Base.{
  Bool-cases, inl, inr, ==→eq, ==→ne, ap, ◌⊎◌, ◌/◌, sym, ltb→lt, ltb→le, ℕ, zero, suc, ◌+◌, ◌*◌,
  ◌-◌, ◌<◌, ◌≤◌, ◌≡◌, refl, ◌∙◌, Bool, false, ltb, ◌==◌, if◌then◌else◌, update, update_self,
  update_ne, arith,
}
use choochoo_os.Base.Int.{ℤ, pos, negsuc}
use choochoo_os.User.Track.{
  NodeType, node_sensor, node_merge, node_branch, TrackNode, TrackEdge, edge_reverse, edge_forward,
  dir_reverse, dir_ahead, dir_straight, dir_curved, track_max,
}

-- The edge to the node in the opposite direction.
abbrev pub turn_back : ℕ → ℕ → TrackEdge
turn_back i rev = record {
  reverse = record { node = rev; dir = dir_reverse };
  src = i;
  dest = rev;
  dist = pos 0;
  type = edge_reverse;
}

abbrev pub forward : TrackEdge → TrackEdge
forward e = record e { type = edge_forward }

-- The types of the other edges.
abbrev pub set_types : NodeType → (ℕ → TrackEdge) → ℕ → TrackEdge
set_types node_sensor e = update e dir_ahead (forward (e dir_ahead))
set_types node_merge e = update e dir_ahead (forward (e dir_ahead))
set_types node_branch e =
    let e' = update e dir_straight (forward (e dir_straight)) in
    update e' dir_curved (forward (e' dir_curved))
set_types _ e = e

abbrev pub set_edges : ℕ → TrackNode → TrackNode
set_edges i n = record n {
  edge = set_types n.type (update n.edge dir_reverse (turn_back i n.reverse));
}

abbrev pub set_zone : ℤ → TrackNode → TrackNode
set_zone z n = record n { zone = z }

-- The loop over the first `n` nodes that changes the node `i` by `f i`.
unfoldable pub for_nodes : (ℕ → TrackNode → TrackNode) → ℕ → (ℕ → TrackNode) → ℕ → TrackNode
for_nodes f zero track = track
for_nodes f (suc n) track = let t = for_nodes f n track in update t n (f n (t n))

-- The loop over the first `n` turnouts, each a branch and a merge.
unfoldable pub for_switches : (ℕ → ℤ) → ℕ → (ℕ → TrackNode) → ℕ → TrackNode
for_switches z zero track = track
for_switches z (suc n) track =
    let t = for_switches z n track in
    let t' = update t (80 + 2 * n) (set_zone (z n) (t (80 + 2 * n))) in
    update t' (80 + 2 * n + 1) (set_zone (z n) (t' (80 + 2 * n + 1)))

unfoldable pub post_track : (ℕ → TrackNode) → (ℕ → ℤ) → (ℕ → ℤ) → ℕ → TrackNode
post_track track sensors switches =
    let linked = for_nodes set_edges track_max track in
    let unzoned = for_nodes (λ _. set_zone (negsuc 0)) track_max linked in
    let at_sensors = for_nodes (λ i. set_zone (sensors i)) 80 unzoned in
    for_switches switches 22 at_sensors

for_nodes_above :
    (f : ℕ → TrackNode → TrackNode) (n i : ℕ) (t : ℕ → TrackNode) → n ≤ i → for_nodes f n t i ≡ t i
unfolding for_nodes
for_nodes_above f zero i t h = refl
for_nodes_above f (suc n) i t h =
    update_ne (for_nodes f n t) n i (f n (for_nodes f n t n)) (λ e. absurd (omega arith))
    ∙ for_nodes_above f n i t (omega arith)

for_nodes_below :
    (f : ℕ → TrackNode → TrackNode) (n i : ℕ) (t : ℕ → TrackNode)
    → i < n
    → for_nodes f n t i ≡ f i (t i)
unfolding for_nodes
for_nodes_below f zero i t h = absurd (omega arith)
for_nodes_below f (suc n) i t h = elim (Bool-cases (n == i)) [
  | inl e ↦
      subst (λ j. for_nodes f (suc n) t j ≡ f j (t j)) (==→eq n i e)
        (update_self (for_nodes f n t) n (f n (for_nodes f n t n))
          ∙ ap (f n) (for_nodes_above f n n t (omega arith)))
  | inr e ↦
      update_ne (for_nodes f n t) n i (f n (for_nodes f n t n)) (==→ne n i e)
      ∙ for_nodes_below f n i t (ground (arith, ==→ne n i e))
]

for_switches_other :
    (z : ℕ → ℤ) (n i : ℕ) (t : ℕ → TrackNode)
    → (i < 80) ⊎ (80 + 2 * n ≤ i)
    → for_switches z n t i ≡ t i
unfolding for_switches
for_switches_other z zero i t h = refl
for_switches_other z (suc n) i t h =
    update_ne t' (80 + 2 * n + 1) i (set_zone (z n) (t' (80 + 2 * n + 1)))
      (λ e. absurd (omega arith))
    ∙ update_ne before (80 + 2 * n) i (set_zone (z n) (before (80 + 2 * n)))
        (λ e. absurd (omega arith))
    ∙ for_switches_other z n i t (omega arith)
  where
    before : ℕ → TrackNode
    before = for_switches z n t

    t' : ℕ → TrackNode
    t' = update before (80 + 2 * n) (set_zone (z n) (before (80 + 2 * n)))

for_switches_turnout :
    (z : ℕ → ℤ) (n i : ℕ) (t : ℕ → TrackNode)
    → 80 ≤ i
    → i < 80 + 2 * n
    → for_switches z n t i ≡ set_zone (z ((i - 80) / 2)) (t i)
unfolding for_switches
for_switches_turnout z zero i t h l = absurd (omega arith)
for_switches_turnout z (suc n) i t h l = elim (Bool-cases (80 + 2 * n + 1 == i)) [
  | inl e ↦ subst Zoned (==→eq (80 + 2 * n + 1) i e) (
      update_self t' (80 + 2 * n + 1) (set_zone (z n) (t' (80 + 2 * n + 1)))
      ∙ ap (set_zone (z n)) (
          update_ne before (80 + 2 * n) (80 + 2 * n + 1) (set_zone (z n) (before (80 + 2 * n)))
            (λ e. absurd (omega arith))
          ∙ for_switches_other z n (80 + 2 * n + 1) t (omega arith))
      ∙ ap (λ k. set_zone (z k) (t (80 + 2 * n + 1))) (omega arith))
  | inr e ↦
      update_ne t' (80 + 2 * n + 1) i (set_zone (z n) (t' (80 + 2 * n + 1)))
        (==→ne (80 + 2 * n + 1) i e)
      ∙ elim (Bool-cases (80 + 2 * n == i)) [
        | inl a ↦
            subst (λ j. t' j ≡ set_zone (z ((j - 80) / 2)) (t j)) (==→eq (80 + 2 * n) i a)
              (update_self before (80 + 2 * n) (set_zone (z n) (before (80 + 2 * n)))
                ∙ ap (set_zone (z n)) (for_switches_other z n (80 + 2 * n) t (omega arith))
                ∙ ap (λ k. set_zone (z k) (t (80 + 2 * n))) (omega arith))
        | inr a ↦
            update_ne before (80 + 2 * n) i (set_zone (z n) (before (80 + 2 * n)))
              (==→ne (80 + 2 * n) i a)
            ∙ for_switches_turnout z n i t h
                (ground (arith, ==→ne (80 + 2 * n + 1) i e, ==→ne (80 + 2 * n) i a))
      ]
]
  where
    before : ℕ → TrackNode
    before = for_switches z n t

    t' : ℕ → TrackNode
    t' = update before (80 + 2 * n) (set_zone (z n) (before (80 + 2 * n)))

    Zoned : ℕ → Type 0
    Zoned j = for_switches z (suc n) t j ≡ set_zone (z ((j - 80) / 2)) (t j)

-- The zone that the tables give a node.
abbrev pub zone_at : (ℕ → ℤ) → (ℕ → ℤ) → ℕ → ℤ
zone_at sensors switches i =
    if ltb i 80 then sensors i else if ltb i 124 then switches ((i - 80) / 2) else negsuc 0

-- post_track gives every node of the array the zone of its table, or -1 at the ends, and the edge to
-- its reverse node, and changes nothing else of it.
pub post_track-set :
    (track : ℕ → TrackNode) (sensors switches : ℕ → ℤ) (i : ℕ)
    → i < track_max
    → post_track track sensors switches i
      ≡ set_zone (zone_at sensors switches i) (set_edges i (track i))
unfolding post_track
post_track-set track sensors switches i h = elim (Bool-cases (ltb i 80)) [
  | inl l ↦
      for_switches_other switches 22 i at_sensors (inl (ltb→lt i 80 l))
      ∙ for_nodes_below (λ j. set_zone (sensors j)) 80 i unzoned (ltb→lt i 80 l)
      ∙ ap (set_zone (sensors i)) unzoned_at
      ∙ ap (λ b. zoned b (ltb i 124)) (sym l)
  | inr l ↦ elim (Bool-cases (ltb i 124)) [
    | inl m ↦
        for_switches_turnout switches 22 i at_sensors (ltb→le i 80 l) (ltb→lt i 124 m)
        ∙ ap (set_zone (switches ((i - 80) / 2))) (beyond_sensors (ltb→le i 80 l))
        ∙ ap (zoned false) (sym m)
        ∙ ap (λ b. zoned b (ltb i 124)) (sym l)
    | inr m ↦
        for_switches_other switches 22 i at_sensors (inr (ltb→le i 124 m))
        ∙ beyond_sensors (ltb→le i 80 l)
        ∙ ap (zoned false) (sym m)
        ∙ ap (λ b. zoned b (ltb i 124)) (sym l)
  ]
]
  where
    linked : ℕ → TrackNode
    linked = for_nodes set_edges track_max track

    unzoned : ℕ → TrackNode
    unzoned = for_nodes (λ _. set_zone (negsuc 0)) track_max linked

    unzoned_at : unzoned i ≡ set_zone (negsuc 0) (set_edges i (track i))
    unzoned_at =
        for_nodes_below (λ _. set_zone (negsuc 0)) track_max i linked h
        ∙ ap (set_zone (negsuc 0)) (for_nodes_below set_edges track_max i track h)

    at_sensors : ℕ → TrackNode
    at_sensors = for_nodes (λ j. set_zone (sensors j)) 80 unzoned

    beyond_sensors : 80 ≤ i → at_sensors i ≡ set_zone (negsuc 0) (set_edges i (track i))
    beyond_sensors b = for_nodes_above (λ j. set_zone (sensors j)) 80 i unzoned b ∙ unzoned_at

    zoned : Bool → Bool → TrackNode
    zoned b c =
        set_zone (if b then sensors i else if c then switches ((i - 80) / 2) else negsuc 0)
          (set_edges i (track i))
