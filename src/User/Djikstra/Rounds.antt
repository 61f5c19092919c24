-- ===== src/User/Djikstra/Rounds.antt =====
-- user/pathfinder-server/helpers.c: the loop of do_djikstra ends, since a round visits a new node.
use choochoo_os.Base.{
  ℕ, zero, suc, ◌+◌, ◌≤◌, ◌<◌, ◌≡◌, refl, inl, inr, Bool, true, false, Option, none, some, arith,
  update, if◌then◌else◌, ◌∙◌, ap, List,
}
use choochoo_os.User.Track.{track_max}
use choochoo_os.User.Djikstra.{
  Query, Search, Way, Round, at_dest, no_path, go_on, visit, search, pick, is_open,
}
use choochoo_os.User.Djikstra.Relax.{
  relax_all, visited-relax_all, mark, visit-cases, IsDest, ways_out,
}
use choochoo_os.User.Djikstra.Pick.{Picked, pick-Picked}

-- How many of the first `n` nodes are not visited.
unfoldable pub unvisited : (ℕ → Bool) → ℕ → ℕ
unvisited v zero = 0
unvisited v (suc n) = unvisited v n + (if v n then 0 else 1)

unvisited-update_beyond :
    (v : ℕ → Bool) (c n : ℕ) → n ≤ c → unvisited (update v c true) n ≡ unvisited v n
unfolding unvisited
unvisited-update_beyond v c zero h = refl
unvisited-update_beyond v c (suc n) h = ground (arith, unvisited-update_beyond v c n)

unvisited-update :
    (v : ℕ → Bool) (c n : ℕ)
    → c < n
    → v c ≡ false
    → suc (unvisited (update v c true) n) ≡ unvisited v n
unfolding unvisited
unvisited-update v c zero l e = absurd (omega arith)
unvisited-update v c (suc n) l e =
    ground (arith, unvisited-update v c n, unvisited-update_beyond v c n)

pub unvisited_le : (v : ℕ → Bool) (n : ℕ) → unvisited v n ≤ n
unfolding unvisited
unvisited_le v zero = omega arith
unvisited_le v (suc n) = ground (arith, unvisited_le v n)

marked-relaxed :
    (es : List Way) (s : Search) (c n : ℕ)
    → c < n
    → s.visited c ≡ false
    → suc (unvisited (relax_all es (mark c s)).visited n) ≡ unvisited s.visited n
marked-relaxed es s c n l h =
    ap (λ v. suc (unvisited v n)) (visited-relax_all es (mark c s))
    ∙ unvisited-update s.visited c n l h

open→unvisited : (s : Search) (c : ℕ) → is_open s c ≡ true → s.visited c ≡ false
open→unvisited s c h = ground arith

abbrev go_on_with : ℕ → Query → Round → Option Round
go_on_with k q r = elim r [
  | no_path ↦ some no_path
  | at_dest t s' ↦ some (at_dest t s')
  | go_on s' ↦ search k q s'
]

-- With fuel `k` the search from `s` has a result, and `R` holds of it.
abbrev pub Ends : Query → (Round → Type 0) → ℕ → Search → Type 0
Ends q R k s = (r : Round) × (search k q s ≡ some r) × R r

-- The rule of the loop: what every round keeps and every end makes of it holds of the result, and
-- there is a result once the fuel exceeds the nodes that are not visited.
module _ (q : Query) (I : Search → Type 0) (R : Round → Type 0)
    (stop : (s : Search) → I s → Picked s track_max none → R no_path)
    (arrive : (s : Search) (c : ℕ)
      → I s
      → Picked s track_max (some c)
      → IsDest q c
      → R (at_dest c (mark c s)))
    (onward : (s : Search) (c : ℕ)
      → I s
      → Picked s track_max (some c)
      → ¬ IsDest q c
      → I (relax_all (ways_out q c) (mark c s))) where
  fewer :
      (es : List Way) (s : Search) (c k : ℕ)
      → Picked s track_max (some c)
      → unvisited s.visited track_max < suc k
      → unvisited (relax_all es (mark c s)).visited track_max < k
  fewer es s c k p h = omega (arith, marked-relaxed es s c track_max p.0 (open→unvisited s c p.1))

  round_ends :
      (k : ℕ) (s : Search) (o : Option ℕ)
      → Picked s track_max o
      → unvisited s.visited track_max < suc k
      → I s
      → ((s' : Search) → unvisited s'.visited track_max < k → I s' → Ends q R k s')
      → (r : Round) × (go_on_with k q (visit q s o) ≡ some r) × R r
  unfolding visit
  round_ends k s none p h inv rest = (no_path, refl, stop s inv p)
  round_ends k s (some c) p h inv rest = elim (visit-cases q s c) [
    | inl e ↦ (at_dest c (mark c s), ap (go_on_with k q) e.0, arrive s c inv p e.1)
    | inr e ↦
        let t : Search = relax_all (ways_out q c) (mark c s) in
        let found : Ends q R k t = rest t (fewer (ways_out q c) s c k p h) (onward s c inv p e.1) in
        (found.0, ap (go_on_with k q) e.0 ∙ found.1, found.2)
  ]

  pub search_ends : (k : ℕ) (s : Search) → unvisited s.visited track_max < k → I s → Ends q R k s
  unfolding search
  search_ends zero s h inv = absurd (omega arith)
  search_ends (suc k) s h inv =
      round_ends k s (pick s track_max) (pick-Picked s track_max) h inv (search_ends k)
