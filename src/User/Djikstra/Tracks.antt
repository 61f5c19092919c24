-- ===== src/User/Djikstra/Tracks.antt =====
-- user/pathfinder-server/helpers.c on user/traintrack/track_data.c: the edges of tracks A and B are what
-- the search relies on.
use mathlib.Core.Path.{subst}
use choochoo_os.Base.{
  below_at, ℕ, ◌<◌, ◌^◌, ◌≡◌, refl, sym, Bool, true, [], ◌∷◌, arith, if◌then◌else◌, if-cases, All,
  All-append, All-member, ◌&&◌, ltb, and_left, and_right, ◌⊎◌, inl, inr,
}
use choochoo_os.Base.Int.{to_u32}
use choochoo_os.User.Track.{
  TrackNode, TrackEdge, track_max, NodeType, node_none, node_sensor, node_branch, node_merge,
  node_enter, node_exit, is_sensor, dir_reverse, dir_ahead, dir_curved, dir_straight,
}
use choochoo_os.User.Track.Post.{post_track, for_switches, for_nodes}
use choochoo_os.User.Track.TrackA.{init_tracka}
use choochoo_os.User.Track.TrackB.{init_trackb}
use choochoo_os.User.Track.Mirror.{edges_of, all_of}
use choochoo_os.User.Djikstra.{Query, Way, along, back, is_blocked}
use choochoo_os.User.Djikstra.Relax.{ways_out, forwards}
use choochoo_os.User.Djikstra.Sound.{InTrack}

abbrev edge_leads : TrackEdge → Bool
edge_leads e = ltb e.dest track_max && ltb (to_u32 e.dist) (2 ^ 31)

abbrev node_leads : (ℕ → TrackNode) → ℕ → Bool
node_leads t i =
    (if is_sensor (t i).type
      then ltb (t i).reverse track_max && ltb (to_u32 ((t i).edge dir_reverse).dist) (2 ^ 31)
      else true)
    && all_of (λ d. edge_leads ((t i).edge d)) (edges_of (t i).type)

abbrev Leads : Way → Type 0
Leads e = (e.next < track_max) × (e.weight < 2 ^ 31)

both_lt : (a b c d : ℕ) → ltb a b && ltb c d ≡ true → (a < b) × (c < d)
both_lt a b c d h = ground arith

led : (q : Query) (u d : ℕ) → edge_leads ((q.track u).edge d) ≡ true → Leads (along q u d)
led q u d h = let e = (q.track u).edge d in both_lt e.dest track_max (to_u32 e.dist) (2 ^ 31) h

forwards-Leads :
    (q : Query) (u : ℕ) (t : NodeType)
    → all_of (λ d. edge_leads ((q.track u).edge d)) (edges_of t) ≡ true
    → All Leads (forwards q u t)
forwards-Leads q u node_none h = tt
forwards-Leads q u node_sensor h =
    (led q u dir_ahead (and_left (edge_leads ((q.track u).edge dir_ahead)) true h), tt)
forwards-Leads q u node_branch h =
    let straight = edge_leads ((q.track u).edge dir_straight) in
    let curved = edge_leads ((q.track u).edge dir_curved) in
    (
      led q u dir_straight (and_left straight (curved && true) h),
      (led q u dir_curved (and_left curved true (and_right straight (curved && true) h)), tt),
    )
forwards-Leads q u node_merge h =
    (led q u dir_ahead (and_left (edge_leads ((q.track u).edge dir_ahead)) true h), tt)
forwards-Leads q u node_enter h = tt
forwards-Leads q u node_exit h = tt

ways_out-Leads : (q : Query) (u : ℕ) → node_leads q.track u ≡ true → All Leads (ways_out q u)
ways_out-Leads q u h =
    if-cases (All Leads) (is_blocked q u) (λ _. tt)
      (λ _.
        All-append Leads (forwards q u type) (if turn then back q u ∷ [] else [])
          (forwards-Leads q u type (and_right turns ahead_leads h))
          (if-cases (All Leads) turn (λ b. (turned b, tt)) (λ _. tt)))
  where
    open (q.track u) use {type, edge, reverse}

    turn : Bool
    turn = q.allow_reversal && is_sensor type

    near : Bool
    near = ltb reverse track_max && ltb (to_u32 (edge dir_reverse).dist) (2 ^ 31)

    turns : Bool
    turns = if is_sensor type then near else true

    ahead_leads : Bool
    ahead_leads = all_of (λ d. edge_leads (edge d)) (edges_of type)

    if_holds : (b c : Bool) → b ≡ true → (if b then c else true) ≡ true → c ≡ true
    if_holds b c e k = ground arith

    turned : turn ≡ true → Leads (back q u)
    turned b = both_lt reverse track_max (to_u32 (edge dir_reverse).dist) (2 ^ 31) (
        if_holds (is_sensor type) near (and_right q.allow_reversal (is_sensor type) b)
          (and_left turns ahead_leads h))

node_leads-InTrack :
    (q : Query)
    → ((u : ℕ) → u < track_max → node_leads q.track u ≡ true)
    → q.source_node < track_max
    → InTrack q
node_leads-InTrack q h l = record {
  source = l;
  next = λ u e b m. (All-member Leads e (ways_out q u) (ways_out-Leads q u (h u b)) m).0;
  weight = λ u e b m. (All-member Leads e (ways_out q u) (ways_out-Leads q u (h u b)) m).1;
}

tracka_leads : (u : ℕ) → u < track_max → node_leads init_tracka u ≡ true
unfolding post_track for_switches for_nodes
tracka_leads = below_at 144 (node_leads init_tracka) refl

trackb_leads : (u : ℕ) → u < track_max → node_leads init_trackb u ≡ true
unfolding post_track for_switches for_nodes
trackb_leads = below_at 144 (node_leads init_trackb) refl

-- Both tracks are what do_djikstra_shortest asks for, from every node of the array.
pub tracks-InTrack :
    (q : Query)
    → (q.track ≡ init_tracka) ⊎ (q.track ≡ init_trackb)
    → q.source_node < track_max
    → InTrack q
tracks-InTrack q (inl e) l =
    node_leads-InTrack q (λ u h. subst (λ t. node_leads t u ≡ true) (sym e) (tracka_leads u h)) l
tracks-InTrack q (inr e) l =
    node_leads-InTrack q (λ u h. subst (λ t. node_leads t u ≡ true) (sym e) (trackb_leads u h)) l
