-- ===== src/User/NextSensor/Ahead.antt =====
-- user/trainsys-server/server.c: find_next_sensor ends on both tracks, and at the first sensor ahead.
use mathlib.Core.Path.{subst}
use choochoo_os.Base.{
  below_at, ℕ, zero, suc, ◌<◌, ◌≡◌, refl, ap, ◌∙◌, sym, ◌⊎◌, inl, inr, Bool, true, false, ◌&&◌,
  ◌||◌, Bool-cases, Option, none, some, if◌then◌else◌, and_left, and_right, List, [], ◌∷◌, arith,
}
use choochoo_os.Base.Int.{ℤ, ◌+ℤ◌}
use choochoo_os.User.Switch.{SwitchMode, switch_mode_s, switch_mode_c, switch_mode_unknown}
use choochoo_os.User.Track.{
  TrackNode, TrackEdge, NodeType, node_none, node_sensor, node_branch, node_merge, node_enter,
  node_exit, is_sensor, dir_ahead, dir_straight, dir_curved,
}
use choochoo_os.User.Track.Post.{post_track, for_switches, for_nodes}
use choochoo_os.User.Track.TrackA.{init_tracka}
use choochoo_os.User.Track.TrackB.{init_trackb}
use choochoo_os.User.Track.Mirror.{edges_of, all_of}
use choochoo_os.User.NextSensor.{edge_by_mode, edge_by_type, edge_ahead, Next, find_next_sensor}

-- What the walk from `cur` finds: a sensor that is reached by the edges `es`, each the one that the turnouts
-- give, over nodes that are no sensors; or a node where the way is unknown.
abbrev pub Reaches : (ℕ → TrackNode) → (ℤ → SwitchMode) → ℕ → ℤ → Next → List TrackEdge → Type 0
Reaches track modes cur d r [] =
    (edge_ahead track modes cur ≡ none) × (r.is_unknown ≡ true) × (r.node ≡ cur) × (r.dist ≡ d)
Reaches track modes cur d r (e ∷ es) =
    (edge_ahead track modes cur ≡ some e)
    × (((is_sensor (track e.dest).type ≡ true)
          × (es ≡ [])
          × (r.is_unknown ≡ false)
          × (r.node ≡ e.dest)
          × (r.dist ≡ d +ℤ e.dist))
        ⊎ ((is_sensor (track e.dest).type ≡ false) × Reaches track modes e.dest (d +ℤ e.dist) r es))

-- However the turnouts stand, a sensor or an end comes within `k` edges.
abbrev pub comes_within : ℕ → (ℕ → TrackNode) → ℕ → Bool
comes_within zero t i = false
comes_within (suc k) t i =
    all_of (λ d. let j = ((t i).edge d).dest in is_sensor (t j).type || comes_within k t j)
      (edges_of (t i).type)

some_eq : {A : Type 0} {a b : A} → some a ≡ some b → a ≡ b
some_eq h = ground arith

module _ (track : ℕ → TrackNode) (modes : ℤ → SwitchMode) where
  one_of_mode :
      (p : TrackEdge → Bool) (n : TrackNode) (m : SwitchMode) (e : TrackEdge)
      → edge_by_mode n m ≡ some e
      → p (n.edge dir_straight) && (p (n.edge dir_curved) && true) ≡ true
      → p e ≡ true
  one_of_mode p n switch_mode_unknown e h k = absurd (ground arith)
  one_of_mode p n switch_mode_s e h k =
      ap p (sym (some_eq h)) ∙ and_left (p (n.edge dir_straight)) (p (n.edge dir_curved) && true) k
  one_of_mode p n switch_mode_c e h k =
      ap p (sym (some_eq h))
      ∙ and_left (p (n.edge dir_curved)) true
          (and_right (p (n.edge dir_straight)) (p (n.edge dir_curved) && true) k)

  -- The edge taken is one of the node's.
  one_of :
      (p : TrackEdge → Bool) (n : TrackNode) (t : NodeType) (e : TrackEdge)
      → edge_by_type n modes t ≡ some e
      → all_of (λ d. p (n.edge d)) (edges_of t) ≡ true
      → p e ≡ true
  one_of p n node_none e h k = absurd (ground arith)
  one_of p n node_sensor e h k = ap p (sym (some_eq h)) ∙ and_left (p (n.edge dir_ahead)) true k
  one_of p n node_branch e h k = one_of_mode p n (modes n.num) e h k
  one_of p n node_merge e h k = ap p (sym (some_eq h)) ∙ and_left (p (n.edge dir_ahead)) true k
  one_of p n node_enter e h k = ap p (sym (some_eq h)) ∙ and_left (p (n.edge dir_ahead)) true k
  one_of p n node_exit e h k = absurd (ground arith)

  abbrev pub Found : ℕ → ℤ → Option Next → Type 0
  Found cur d o = (r : Next) × (es : List TrackEdge) × (o ≡ some r) × Reaches track modes cur d r es

  abbrev follow : ℕ → ℕ → ℤ → Option TrackEdge → Option Next
  follow k cur d o = elim o [
    | none ↦ some (record { node = cur; is_unknown = true; dist = d })
    | some e ↦
        let rest = find_next_sensor k track modes e.dest (d +ℤ e.dist) in
        if is_sensor (track e.dest).type
        then some (record { node = e.dest; is_unknown = false; dist = d +ℤ e.dist })
        else rest
  ]

  follow-Found :
      (k cur : ℕ) (d : ℤ) (o : Option TrackEdge)
      → edge_ahead track modes cur ≡ o
      → comes_within (suc k) track cur ≡ true
      → ((j : ℕ) (b : ℤ)
          → comes_within k track j ≡ true
          → Found j b (find_next_sensor k track modes j b))
      → Found cur d (follow k cur d o)
  follow-Found k cur d none h c rest =
      (record { node = cur; is_unknown = true; dist = d }, [], refl, (h, refl, refl, refl))
  follow-Found k cur d (some e) h c rest = elim (Bool-cases (is_sensor (track e.dest).type)) [
    | inl s ↦ (
      record { node = e.dest; is_unknown = false; dist = d +ℤ e.dist },
      e ∷ [],
      ap
          (λ b.
            if b
            then some (record { node = e.dest; is_unknown = false; dist = d +ℤ e.dist })
            else find_next_sensor k track modes e.dest (d +ℤ e.dist))
          s,
      (h, inl (s, refl, refl, refl, refl)),
    )
    | inr s ↦
        let next =
          one_of (λ a. is_sensor (track a.dest).type || comes_within k track a.dest) (track cur)
            (track cur).type e h c in
        let r =
          rest e.dest (d +ℤ e.dist)
            (or_true (is_sensor (track e.dest).type) (comes_within k track e.dest) s next) in
        (
          r.0,
          e ∷ r.1,
          ap
                (λ b.
                  if b
                  then some (record { node = e.dest; is_unknown = false; dist = d +ℤ e.dist })
                  else find_next_sensor k track modes e.dest (d +ℤ e.dist))
                s
              ∙ r.2,
          (h, inr (s, r.3)),
        )
  ]
    where
      or_true : (a b : Bool) → a ≡ false → a || b ≡ true → b ≡ true
      or_true a b e f = ground arith

  pub find_next_sensor-Found :
      (k cur : ℕ) (d : ℤ)
      → comes_within k track cur ≡ true
      → Found cur d (find_next_sensor k track modes cur d)
  unfolding find_next_sensor
  find_next_sensor-Found zero cur d h = absurd (ground arith)
  find_next_sensor-Found (suc k) cur d h =
      follow-Found k cur d (edge_ahead track modes cur) refl h (find_next_sensor-Found k)

tracka_comes : (i : ℕ) → i < 144 → comes_within 6 init_tracka i ≡ true
unfolding post_track for_switches for_nodes
tracka_comes = below_at 144 (comes_within 6 init_tracka) refl

trackb_comes : (i : ℕ) → i < 144 → comes_within 6 init_trackb i ≡ true
unfolding post_track for_switches for_nodes
trackb_comes = below_at 144 (comes_within 6 init_trackb) refl

-- On tracks A and B, however the turnouts stand, find_next_sensor ends within 6 rounds from every node.
-- It stops at the first sensor behind the node on the way that the turnouts give, and adds the lengths
-- of the edges up to there to the distance; or where the way is unknown, at an end or a turnout of
-- unknown state, and says so.
pub find_next_sensor_ends :
    (track : ℕ → TrackNode) (modes : ℤ → SwitchMode) (cur : ℕ) (d : ℤ)
    → (track ≡ init_tracka) ⊎ (track ≡ init_trackb)
    → cur < 144
    → Found track modes cur d (find_next_sensor 6 track modes cur d)
find_next_sensor_ends track modes cur d (inl e) h =
    find_next_sensor-Found track modes 6 cur d
      (subst (λ t. comes_within 6 t cur ≡ true) (sym e) (tracka_comes cur h))
find_next_sensor_ends track modes cur d (inr e) h =
    find_next_sensor-Found track modes 6 cur d
      (subst (λ t. comes_within 6 t cur ≡ true) (sym e) (trackb_comes cur h))
