-- ===== src/User/Djikstra/Kept.antt =====
-- user/pathfinder-server/helpers.c: relaxing the edges out of the node just visited.
use mathlib.Core.Path.{subst}
use mathlib.Core.List.{Memᴰ}
use mathlib.Core.List.Memᴰ
use choochoo_os.Base.{
  ℕ, ◌+◌, ◌≤◌, ◌<◌, ◌^◌, ◌%◌, ◌≡◌, refl, ap, ◌∙◌, sym, ◌≢◌, ◌⊎◌, inl, inr, true, Bool-cases, List,
  [], ◌∷◌, arith, some, update, ltb, update_self, update_ne, ltb→lt, ltb→le, ◌==◌, ==→eq, ==→ne,
  lt→ne,
}
use choochoo_os.User.Track.{track_max}
use choochoo_os.User.Djikstra.{Query, Search, Way, relax, ref, inf}
use choochoo_os.User.Djikstra.Relax.{ways_out, relax_all}
use choochoo_os.User.Djikstra.Sound.{Recorded, Sound, Latest, SameAt, Recorded-same}

abbrev shorter : Way → Search → Search
shorter e s = record s {
  dist = update s.dist e.next (s.dist e.node + e.weight);
  prev = update s.prev e.next e.node;
  edges = update s.edges e.next (some (ref e));
}

relax-cases :
    (e : Way) (s : Search)
    → s.dist e.node ≤ inf
    → e.weight < 2 ^ 31
    → ((relax e s ≡ s) × (s.dist e.next ≤ s.dist e.node + e.weight))
      ⊎ ((relax e s ≡ shorter e s) × (s.dist e.node + e.weight < s.dist e.next))
unfolding relax
relax-cases e s h w = elim (Bool-cases (ltb (s.dist e.node + e.weight) (s.dist e.next))) [
  | inl l ↦ inr (rw (no_wrap, l), ltb→lt (s.dist e.node + e.weight) (s.dist e.next) l)
  | inr l ↦ inl (rw (no_wrap, l), ltb→le (s.dist e.node + e.weight) (s.dist e.next) l)
]
  where
    no_wrap : (s.dist e.node + e.weight) % 2 ^ 32 ≡ s.dist e.node + e.weight
    no_wrap = omega arith

-- What relaxing edges out of a visited node leaves alone.
pub record Kept (s t : Search) : Type 0 where
  pub less : (u : ℕ) → t.dist u ≤ s.dist u
  pub visited : t.visited ≡ s.visited
  pub settled : (u : ℕ) → s.visited u ≡ true → t.dist u ≡ s.dist u

Kept-refl : (s : Search) → Kept s s
Kept-refl s = record { less = λ u. omega arith; visited = refl; settled = λ u e. refl }

Kept-trans : (s t r : Search) → Kept s t → Kept t r → Kept s r
Kept-trans s t r h k = record {
  less = λ u. omega (arith, h.less u, k.less u);
  visited = k.visited ∙ h.visited;
  settled = λ u e. k.settled u (ap (λ v. v u) h.visited ∙ e) ∙ h.settled u e;
}

-- The edge that is relaxed leads out of the node visited last.
pub record Good (q : Query) (s : Search) (e : Way) : Type 0 where
  latest : Latest s e.node
  next : e.next < track_max
  weight : e.weight < 2 ^ 31
  out : Memᴰ e (ways_out q e.node)

not_visited :
    (q : Query) (s : Search) (e : Way)
    → Latest s e.node
    → s.dist e.node + e.weight < s.dist e.next
    → (u : ℕ) → s.visited u ≡ true
    → e.next ≢ u
not_visited q s e l h u v eq = absurd (omega (arith, l.1 u v, ap s.dist eq))

shorter-Kept :
    (q : Query) (s : Search) (e : Way)
    → Good q s e
    → s.dist e.node + e.weight < s.dist e.next
    → Kept s (shorter e s)
shorter-Kept q s e g h = record {
  less = λ u. ground arith;
  visited = refl;
  settled = λ u v.
      update_ne s.dist e.next u (s.dist e.node + e.weight) (not_visited q s e g.latest h u v);
}

shorter-SameAt : (e : Way) (s : Search) (u : ℕ) → e.next ≢ u → SameAt s (shorter e s) u
shorter-SameAt e s u n = (
  update_ne s.dist e.next u (s.dist e.node + e.weight) n,
  update_ne s.prev e.next u e.node n,
  update_ne s.edges e.next u (some (ref e)) n,
)

module _ (q : Query) (s : Search) (e : Way) (inv : Sound q s) (g : Good q s e)
    (h : s.dist e.node + e.weight < s.dist e.next) where
  still : (u : ℕ) → s.visited u ≡ true → SameAt s (shorter e s) u × (s.visited u ≡ true)
  still u v = (shorter-SameAt e s u (not_visited q s e g.latest h u v), v)

  shorter-Recorded :
      (es : List Way) → Recorded q s es e.node → Recorded q (shorter e s) (e ∷ es) e.next
  shorter-Recorded es r = (
    λ a. absurd (omega (arith, ap s.dist a, inv.source)),
    refl,
    g.out,
    update_self s.prev e.next e.node,
    update_self s.edges e.next (some (ref e)),
    g.latest.0,
    update_self s.dist e.next (s.dist e.node + e.weight)
        ∙ ap (λ d. d + e.weight) (sym (still e.node g.latest.0).0.0),
    Recorded-same q s (shorter e s) es e.node still (still e.node g.latest.0).0 r,
  )

  Recorded-after :
      (i : ℕ) → (shorter e s).dist i ≢ inf → (es : List Way) × Recorded q (shorter e s) es i
  Recorded-after i f = elim (Bool-cases (e.next == i)) [
    | inl a ↦
        let r = inv.recorded e.node (lt→ne (s.dist e.node) inf (inv.visited e.node g.latest.0).1) in
        (
          e ∷ r.0,
          subst (Recorded q (shorter e s) (e ∷ r.0)) (==→eq e.next i a) (shorter-Recorded r.0 r.1),
        )
    | inr a ↦
        let same = shorter-SameAt e s i (==→ne e.next i a) in
        let r = inv.recorded i (λ b. f (same.0 ∙ b)) in
        (r.0, Recorded-same q s (shorter e s) r.0 i still same r.1)
  ]

  shorter-Sound : Sound q (shorter e s)
  shorter-Sound = record {
    bounded = λ i. ground (arith, inv.bounded i, inv.bounded e.next);
    source = ground (arith, inv.source);
    recorded = Recorded-after;
    ordered = λ u v b x y. ground (arith, inv.ordered u v b x y, g.latest.1 u x, still u x);
    visited = λ u a. ground (arith, inv.visited u a, still u a);
  }

pub relax_keeps :
    (q : Query) (s : Search) (e : Way)
    → Sound q s
    → Good q s e
    → Sound q (relax e s)
      × Kept s (relax e s)
      × ((relax e s).dist e.next ≤ s.dist e.node + e.weight)
relax_keeps q s e inv g = elim (relax-cases e s (inv.bounded e.node) g.weight) [
  | inl h ↦
      subst (λ t. Sound q t × Kept s t × (t.dist e.next ≤ s.dist e.node + e.weight)) (sym h.0)
        (inv, Kept-refl s, h.1)
  | inr h ↦
      subst (λ t. Sound q t × Kept s t × (t.dist e.next ≤ s.dist e.node + e.weight)) (sym h.0)
        (shorter-Sound q s e inv g h.1, shorter-Kept q s e g h.1, ground arith)
]

Latest-Kept : (s t : Search) (c : ℕ) → Kept s t → Latest s c → Latest t c
Latest-Kept s t c k l = (
  ap (λ v. v c) k.visited ∙ l.0,
  λ u v. omega (
    arith,
    l.1 u (sym (ap (λ w. w u) k.visited) ∙ v),
    k.settled u (sym (ap (λ w. w u) k.visited) ∙ v),
    k.settled c l.0,
  ),
)

-- Each way leads out of the node `c` and inside the track.
abbrev pub Leads : Query → ℕ → Way → Type 0
Leads q c e = (e.node ≡ c) × (e.next < track_max) × (e.weight < 2 ^ 31) × Memᴰ e (ways_out q c)

Good-Leads : (q : Query) (s : Search) (c : ℕ) (e : Way) → Latest s c → Leads q c e → Good q s e
Good-Leads q s c e l h = record {
  latest = subst (Latest s) (sym h.0) l;
  next = h.1;
  weight = h.2;
  out = subst (λ u. Memᴰ e (ways_out q u)) (sym h.0) h.3;
}

-- `t` reaches the end of an edge within what the edge gives in `s`.
abbrev pub Within : Search → Search → ℕ → Way → Type 0
Within s t c e = t.dist e.next ≤ s.dist c + e.weight

each-Within :
    (s t r : Search) (c : ℕ) (e : Way) (es : List Way)
    → Latest s c
    → e.node ≡ c
    → t.dist e.next ≤ s.dist e.node + e.weight
    → Kept s t
    → Kept t r
    → ((d : Way) → Memᴰ d es → Within t r c d)
    → (d : Way) → Memᴰ d (e ∷ es)
    → Within s r c d
each-Within s t r c e es l n w k k' h d (Memᴰ.head eq) =
    subst (Within s r c) (sym eq) (omega (arith, k'.less e.next, ap s.dist n))
each-Within s t r c e es l n w k k' h d (Memᴰ.tail m) = omega (arith, h d m, k.settled c l.0)

pub relax_all_keeps :
    (q : Query) (c : ℕ) (es : List Way) (s : Search)
    → ((e : Way) → Memᴰ e es → Leads q c e)
    → Latest s c
    → Sound q s
    → Sound q (relax_all es s)
      × Kept s (relax_all es s)
      × ((e : Way) → Memᴰ e es → (relax_all es s).dist e.next ≤ s.dist c + e.weight)
relax_all_keeps q c [] s h l inv = (inv, Kept-refl s, λ e m. absurd (Memᴰ.not-nil m))
relax_all_keeps q c (e ∷ es) s h l inv =
    let t : Search = relax e s in
    let lead = h e (Memᴰ.head refl) in
    let one = relax_keeps q s e inv (Good-Leads q s c e l lead) in
    let rest =
      relax_all_keeps q c es t (λ d m. h d (Memᴰ.tail m)) (Latest-Kept s t c one.1 l) one.0 in
    (
      rest.0,
      Kept-trans s t (relax_all es t) one.1 rest.1,
      each-Within s t (relax_all es t) c e es l lead.0 one.2 one.1 rest.1 rest.2,
    )
