-- ===== src/User/Djikstra/Relax.antt =====
-- user/pathfinder-server/helpers.c: the edges that leave a node, and what relaxing them changes.
use mathlib.Core.Logic.{⊎_elim}
use choochoo_os.Base.{
  ℕ, ◌≡◌, refl, ap, ◌∙◌, Bool, true, false, ◌&&◌, List, [], ◌∷◌, ◌++◌, arith, if◌then◌else◌, sym,
  update, inl, inr, ◌⊎◌, ◌==◌, ==→eq, ==→ne, some, Bool-cases,
}
use choochoo_os.User.Track.{
  NodeType, node_none, node_sensor, node_branch, node_merge, node_enter, node_exit, is_sensor,
  dir_ahead, dir_straight, dir_curved,
}
use choochoo_os.User.Djikstra.{
  Query, Search, Way, along, back, relax, relax_forwards, expand, is_blocked, go_on, at_dest, visit,
}

-- The edges that a train may leave a node by: ahead, by both arms of a branch, back at a sensor if
-- it may reverse.
abbrev pub forwards : Query → ℕ → NodeType → List Way
forwards q u node_sensor = along q u dir_ahead ∷ []
forwards q u node_merge = along q u dir_ahead ∷ []
forwards q u node_branch = along q u dir_straight ∷ along q u dir_curved ∷ []
forwards q u _ = []

abbrev pub leaving : Query → ℕ → List Way
leaving q u =
    forwards q u (q.track u).type
    ++ (if q.allow_reversal && is_sensor (q.track u).type then back q u ∷ [] else [])

-- A node in a zone that another train holds is not left.
abbrev pub ways_out : Query → ℕ → List Way
ways_out q u = if is_blocked q u then [] else leaving q u

abbrev pub relax_all : List Way → Search → Search
relax_all [] s = s
relax_all (e ∷ es) s = relax_all es (relax e s)

relax_all-append :
    (es ds : List Way) (s : Search) → relax_all (es ++ ds) s ≡ relax_all ds (relax_all es s)
relax_all-append [] ds s = refl
relax_all-append (e ∷ es) ds s = relax_all-append es ds (relax e s)

forwards-relax_all :
    (q : Query) (u : ℕ) (t : NodeType) (s : Search)
    → relax_forwards q u t s ≡ relax_all (forwards q u t) s
unfolding relax_forwards
forwards-relax_all q u node_none s = refl
forwards-relax_all q u node_sensor s = refl
forwards-relax_all q u node_branch s = refl
forwards-relax_all q u node_merge s = refl
forwards-relax_all q u node_enter s = refl
forwards-relax_all q u node_exit s = refl

if-relax_all :
    (b : Bool) (e : Way) (s : Search)
    → (if b then relax e s else s) ≡ relax_all (if b then e ∷ [] else []) s
if-relax_all true e s = refl
if-relax_all false e s = refl

pub expand-relax_all : (q : Query) (u : ℕ) (s : Search) → expand q u s ≡ relax_all (leaving q u) s
unfolding expand
expand-relax_all q u s =
    if-relax_all turn (back q u) (relax_forwards q u type s)
    ∙ ap (relax_all last) (forwards-relax_all q u type s)
    ∙ sym (relax_all-append (forwards q u type) last s)
  where
    open (q.track u) use {type}

    turn : Bool
    turn = q.allow_reversal && is_sensor type

    last : List Way
    last = if turn then back q u ∷ [] else []

visited-relax : (e : Way) (s : Search) → (relax e s).visited ≡ s.visited
unfolding relax
visited-relax e s = ground arith

pub visited-relax_all : (es : List Way) (s : Search) → (relax_all es s).visited ≡ s.visited
visited-relax_all [] s = refl
visited-relax_all (e ∷ es) s = visited-relax_all es (relax e s) ∙ visited-relax e s

abbrev pub mark : ℕ → Search → Search
mark c s = record s { visited = update s.visited c true }

abbrev pub IsDest : Query → ℕ → Type 0
IsDest q c = (c ≡ q.dest_node) ⊎ (c ≡ (q.track q.dest_node).reverse)

blocked-relax_all :
    (q : Query) (c : ℕ) (s : Search)
    → (if is_blocked q c then go_on s else go_on (expand q c s))
      ≡ go_on (relax_all (ways_out q c) s)
blocked-relax_all q c s = elim (Bool-cases (is_blocked q c)) [
  | inl b ↦ rw b
  | inr b ↦ rw b (ap go_on (expand-relax_all q c s))
]

-- A round stops at the destination, or relaxes every edge by which the node may be left.
pub visit-cases :
    (q : Query) (s : Search) (c : ℕ)
    → ((visit q s (some c) ≡ at_dest c (mark c s)) × IsDest q c)
      ⊎ ((visit q s (some c) ≡ go_on (relax_all (ways_out q c) (mark c s))) × ¬ IsDest q c)
unfolding visit
visit-cases q s c = elim (Bool-cases (c == q.dest_node)) [
  | inl a ↦ inl (rw a, inl (==→eq c q.dest_node a))
  | inr a ↦ elim (Bool-cases (c == (q.track q.dest_node).reverse)) [
    | inl b ↦ inl (rw (a, b), inr (==→eq c (q.track q.dest_node).reverse b))
    | inr b ↦ inr (
      rw (a, b) (blocked-relax_all q c (mark c s)),
      ⊎_elim (==→ne c q.dest_node a) (==→ne c (q.track q.dest_node).reverse b),
    )
  ]
]
