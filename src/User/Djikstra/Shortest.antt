-- ===== src/User/Djikstra/Shortest.antt =====
-- user/pathfinder-server/helpers.c: the first arrival at the destination is by a shortest route.
use mathlib.Core.Path.{subst}
use mathlib.Core.List.{Memᴰ}
use choochoo_os.Base.{
  ℕ, ◌+◌, ◌≤◌, ◌<◌, ◌≡◌, refl, ap, ◌∙◌, sym, ◌⊎◌, inl, inr, true, false, Bool-cases, List, [], ◌∷◌,
  arith, if◌then◌else◌, some, none, if-cases, not_both, update_self, update_ne, ==→eq, ==→ne, ◌==◌,
  All, All-append, All-member, ◌&&◌,
}
use choochoo_os.User.Track.{
  track_max, NodeType, node_none, node_sensor, node_branch, node_merge, node_enter, node_exit,
  is_sensor,
}
use choochoo_os.User.Djikstra.{
  Query, Search, Way, Round, at_dest, no_path, go_on, inf, start, is_blocked, back,
}
use choochoo_os.User.Djikstra.Pick.{Picked}
use choochoo_os.User.Djikstra.Rounds.{Ends, search_ends, unvisited_le}
use choochoo_os.User.Djikstra.Relax.{ways_out, forwards, mark, relax_all, IsDest}
use choochoo_os.User.Djikstra.Sound.{
  IsRoute, length_mm, InTrack, Recorded, Sound, Closed, Latest, start-Sound, mark-Sound,
}
use choochoo_os.User.Djikstra.Kept.{Kept, Leads, relax_all_keeps}

pub record Inv (q : Query) (s : Search) : Type 0 where
  sound : Sound q s
  closed : Closed q s
  before : (u : ℕ) → IsDest q u → s.visited u ≡ false

start-Inv : (q : Query) → InTrack q → Inv q (start q)
start-Inv q h = record {
  sound = start-Sound q h.source;
  closed = λ u e v m. absurd (not_both (false) v refl);
  before = λ u d. refl;
}

forwards-node : (q : Query) (u : ℕ) (t : NodeType) → All (λ e. e.node ≡ u) (forwards q u t)
forwards-node q u node_none = tt
forwards-node q u node_sensor = (refl, tt)
forwards-node q u node_branch = (refl, (refl, tt))
forwards-node q u node_merge = (refl, tt)
forwards-node q u node_enter = tt
forwards-node q u node_exit = tt

ways_out-node : (q : Query) (u : ℕ) → All (λ e. e.node ≡ u) (ways_out q u)
ways_out-node q u =
    if-cases (All (λ e. e.node ≡ u)) (is_blocked q u) (λ _. tt)
      (λ _.
        All-append (λ e. e.node ≡ u) (forwards q u type)
          (if q.allow_reversal && is_sensor type then back q u ∷ [] else [])
          (forwards-node q u type)
          (if-cases (All (λ e. e.node ≡ u)) (q.allow_reversal && is_sensor type) (λ _. (refl, tt))
            (λ _. tt)))
  where
    open (q.track u) use {type}

mark-Latest :
    (q : Query) (s : Search) (c : ℕ) → Sound q s → Picked s track_max (some c) → Latest (mark c s) c
mark-Latest q s c inv p =
    (update_self s.visited c true, λ u v. ground (arith, inv.ordered u c p.0, p.1))

onward :
    (q : Query)
    → InTrack q
    → (s : Search) (c : ℕ) → Inv q s
    → Picked s track_max (some c)
    → ¬ IsDest q c
    → Inv q (relax_all (ways_out q c) (mark c s))
onward q h s c inv p n = record {
  sound = kept.0;
  closed = closed_after;
  before = λ u d.
      ap (λ w. w u) kept.1.visited
      ∙ update_ne s.visited c u true (λ e. n (subst (IsDest q) (sym e) d))
      ∙ inv.before u d;
}
  where
    after : Search
    after = relax_all (ways_out q c) (mark c s)

    out : (e : Way) → Memᴰ e (ways_out q c) → Leads q c e
    out e m = (
      All-member (λ d. d.node ≡ c) e (ways_out q c) (ways_out-node q c) m,
      h.next c e p.0 m,
      h.weight c e p.0 m,
      m,
    )

    kept :
        Sound q after
        × Kept (mark c s) after
        × ((e : Way) → Memᴰ e (ways_out q c) → after.dist e.next ≤ s.dist c + e.weight)
    kept =
        relax_all_keeps q c (ways_out q c) (mark c s) out (mark-Latest q s c inv.sound p)
          (mark-Sound q s c inv.sound p)

    closed_after : Closed q after
    closed_after u e v m = elim (Bool-cases (c == u)) [
      | inl a ↦
          let eq = sym (==→eq c u a) in
          omega (
            arith,
            kept.2 e (subst (λ w. Memᴰ e (ways_out q w)) eq m),
            kept.1.settled c (update_self s.visited c true),
            ap after.dist eq,
          )
      | inr a ↦
          let was = sym (ap (λ w. w u) kept.1.visited) ∙ v in
          omega (
            arith,
            kept.1.less e.next,
            kept.1.settled u was,
            inv.closed u e (sym (update_ne s.visited c u true (==→ne c u a)) ∙ was) m,
          )
    ]

-- What the search has found when it ends.
abbrev pub Answers : Query → Round → Type 0
Answers q no_path = (v : ℕ) (es : List Way) → IsDest q v → IsRoute q es v → inf ≤ length_mm es
Answers q (at_dest t s) =
    IsDest q t
    × ((es : List Way) × Recorded q s es t
        × (s.dist t ≡ length_mm es)
        × ((v : ℕ) (ds : List Way) → IsDest q v → IsRoute q ds v → length_mm es ≤ length_mm ds))
Answers q (go_on s) = ⊥

route_inside : (q : Query) (es : List Way) (v : ℕ) → InTrack q → IsRoute q es v → v < track_max
route_inside q [] v h r = subst (λ u. u < track_max) (sym r) h.source
route_inside q (e ∷ es) v h r =
    subst (λ u. u < track_max) r.0 (h.next e.node e (route_inside q es e.node h r.2) r.1)

-- No route is shorter than the distance found, unless it is longer than every open node is far.
route_bounded :
    (q : Query) (s : Search) (b : ℕ)
    → InTrack q
    → Inv q s
    → ((v : ℕ) → v < track_max → s.visited v ≡ false → b ≤ s.dist v)
    → (es : List Way) (v : ℕ) → IsRoute q es v
    → (s.dist v ≤ length_mm es) ⊎ (b ≤ length_mm es)
route_bounded q s b h inv o [] v r = inl (omega (arith, ap s.dist r, inv.sound.source))
route_bounded q s b h inv o (e ∷ es) v r = elim (route_bounded q s b h inv o es e.node r.2) [
  | inl l ↦ elim (Bool-cases (s.visited e.node)) [
    | inl v1 ↦ inl (omega (arith, inv.closed e.node e v1 r.1, ap s.dist r.0))
    | inr v2 ↦ inr (omega (arith, o e.node (route_inside q es e.node h r.2) v2))
  ]
  | inr l ↦ inr (omega arith)
]

Recorded-length :
    (q : Query) (s : Search) (es : List Way) (v : ℕ)
    → s.dist q.source_node ≡ 0
    → Recorded q s es v
    → s.dist v ≡ length_mm es
Recorded-length q s [] v z r = ap s.dist r ∙ z
Recorded-length q s (e ∷ es) v z r =
    r.6 ∙ ap (λ d. d + e.weight) (Recorded-length q s es e.node z r.7)

arrived :
    (q : Query) (s : Search) (c : ℕ)
    → InTrack q
    → Inv q s
    → Picked s track_max (some c)
    → IsDest q c
    → Answers q (at_dest c (mark c s))
arrived q s c h inv p d = (d, (found.0, found.1, far, shortest))
  where
    found : (es : List Way) × Recorded q (mark c s) es c
    found = (mark-Sound q s c inv.sound p).recorded c (λ e. ground (arith, p.1))

    far : s.dist c ≡ length_mm found.0
    far = Recorded-length q (mark c s) found.0 c inv.sound.source found.1

    least : (v : ℕ) → v < track_max → s.visited v ≡ false → s.dist c ≤ s.dist v
    least v l w = ground (arith, p.2 v l, inv.sound.bounded c)

    shortest :
        (v : ℕ) (ds : List Way) → IsDest q v → IsRoute q ds v → length_mm found.0 ≤ length_mm ds
    shortest v ds d' r = elim (route_bounded q s (s.dist c) h inv least ds v r) [
      | inl l ↦ omega (arith, far, least v (route_inside q ds v h r) (inv.before v d'))
      | inr l ↦ omega (arith, far)
    ]

stopped :
    (q : Query) (s : Search) → InTrack q → Inv q s → Picked s track_max none → Answers q no_path
stopped q s h inv p v es d r = elim (route_bounded q s inf h inv far es v r) [
  | inl l ↦ omega (arith, far v (route_inside q es v h r) (inv.before v d))
  | inr l ↦ l
]
  where
    far : (u : ℕ) → u < track_max → s.visited u ≡ false → inf ≤ s.dist u
    far u l w = ground (arith, p u l)

pub search-Answers : (q : Query) → InTrack q → Ends q (Answers q) 145 (start q)
search-Answers q h =
    search_ends q (Inv q) (Answers q) (λ s. stopped q s h) (λ s c. arrived q s c h)
      (λ s c. onward q h s c) 145 (start q) (omega (arith, unvisited_le (λ _. false) track_max))
      (start-Inv q h)
