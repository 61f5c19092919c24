-- ===== src/User/Djikstra/Sound.antt =====
-- user/pathfinder-server/helpers.c: what the rounds of do_djikstra keep, and why the first arrival at
-- the destination is by a shortest way.
use mathlib.Core.List.{Memᴰ}
use choochoo_os.Base.{
  ℕ, ◌+◌, ◌≤◌, ◌<◌, ◌^◌, ◌≡◌, refl, ap, ◌∙◌, sym, ◌≢◌, true, false, List, [], ◌∷◌, arith, some,
  update_self, update_ne,
}
use choochoo_os.User.Track.{track_max}
use choochoo_os.User.Djikstra.{Query, Search, Way, start, ref, inf}
use choochoo_os.User.Djikstra.Pick.{Picked}
use choochoo_os.User.Djikstra.Relax.{ways_out, mark}

-- Steps from the source to a node, the last first.
abbrev pub IsRoute : Query → List Way → ℕ → Type 0
IsRoute q [] v = v ≡ q.source_node
IsRoute q (e ∷ es) v = (e.next ≡ v) × Memᴰ e (ways_out q e.node) × IsRoute q es e.node

abbrev pub length_mm : List Way → ℕ
length_mm [] = 0
length_mm (e ∷ es) = length_mm es + e.weight

-- Edges lead to nodes of the array, and no distance is negative as an `int`.
pub record InTrack (q : Query) : Type 0 where
  pub source : q.source_node < track_max
  pub next : (u : ℕ) (e : Way) → u < track_max → Memᴰ e (ways_out q u) → e.next < track_max
  pub weight : (u : ℕ) (e : Way) → u < track_max → Memᴰ e (ways_out q u) → e.weight < 2 ^ 31

-- The steps that the arrays record for a node.
abbrev pub Recorded : Query → Search → List Way → ℕ → Type 0
Recorded q s [] v = v ≡ q.source_node
Recorded q s (e ∷ es) v =
    (v ≢ q.source_node)
    × (e.next ≡ v)
    × Memᴰ e (ways_out q e.node)
    × (s.prev v ≡ e.node)
    × (s.edges v ≡ some (ref e))
    × (s.visited e.node ≡ true)
    × (s.dist v ≡ s.dist e.node + e.weight)
    × Recorded q s es e.node

pub record Sound (q : Query) (s : Search) : Type 0 where
  pub bounded : (i : ℕ) → s.dist i ≤ inf
  pub source : s.dist q.source_node ≡ 0
  pub recorded : (i : ℕ) → s.dist i ≢ inf → (es : List Way) × Recorded q s es i
  pub ordered :
      (u v : ℕ) → v < track_max → s.visited u ≡ true → s.visited v ≡ false → s.dist u ≤ s.dist v
  pub visited : (u : ℕ) → s.visited u ≡ true → (u < track_max) × (s.dist u < inf)

-- Every edge out of a visited node has been relaxed.
abbrev pub Closed : Query → Search → Type 0
Closed q s =
    (u : ℕ) (e : Way)
    → s.visited u ≡ true
    → Memᴰ e (ways_out q u)
    → s.dist e.next ≤ s.dist u + e.weight

-- The node visited last.
abbrev pub Latest : Search → ℕ → Type 0
Latest s c = (s.visited c ≡ true) × ((u : ℕ) → s.visited u ≡ true → s.dist u ≤ s.dist c)

-- `t` agrees with `s` at the node `v` and at all visited ones.
abbrev pub SameAt : Search → Search → ℕ → Type 0
SameAt s t v = (t.dist v ≡ s.dist v) × (t.prev v ≡ s.prev v) × (t.edges v ≡ s.edges v)

pub Recorded-same :
    (q : Query) (s t : Search) (es : List Way) (v : ℕ)
    → ((u : ℕ) → s.visited u ≡ true → SameAt s t u × (t.visited u ≡ true))
    → SameAt s t v
    → Recorded q s es v
    → Recorded q t es v
Recorded-same q s t [] v k h r = r
Recorded-same q s t (e ∷ es) v k h r = (
  r.0,
  r.1,
  r.2,
  h.1 ∙ r.3,
  h.2 ∙ r.4,
  (k e.node r.5).1,
  h.0 ∙ r.6 ∙ ap (λ d. d + e.weight) (sym (k e.node r.5).0.0),
  Recorded-same q s t es e.node k (k e.node r.5).0 r.7,
)

pub start-Sound : (q : Query) → q.source_node < track_max → Sound q (start q)
start-Sound q l = record {
  bounded = λ i. ground arith;
  source = update_self (λ _. inf) q.source_node 0;
  recorded = λ i h. ([], ground (arith, update_ne (λ _. inf) q.source_node i 0));
  ordered = λ u v _ e _. ground arith;
  visited = λ u e. ground arith;
}

pub mark-Sound :
    (q : Query) (s : Search) (c : ℕ) → Sound q s → Picked s track_max (some c) → Sound q (mark c s)
mark-Sound q s c inv p = record {
  bounded = inv.bounded;
  source = inv.source;
  recorded = λ i h. (
    (inv.recorded i h).0,
    Recorded-same q s (mark c s) (inv.recorded i h).0 i (λ u v. ((refl, refl, refl), ground arith))
        (refl, refl, refl) (inv.recorded i h).1,
  );
  ordered = λ u v l a b. ground (arith, inv.ordered u v l, inv.bounded u, p.2 v l, p.2 u);
  visited = λ u a. ground (arith, inv.visited u, inv.bounded u);
}
