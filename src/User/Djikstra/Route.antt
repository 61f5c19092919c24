-- ===== src/User/Djikstra/Route.antt =====
-- user/pathfinder-server/helpers.c: do_djikstra as a whole, from the search to the array of edges.
use mathlib.Core.Path.{subst}
use choochoo_os.Base.{
  ℕ, ◌+◌, ◌≤◌, ◌<◌, ◌≡◌, refl, ap, ◌∙◌, sym, ◌≢◌, ◌⊎◌, inl, inr, false, List, [], ◌∷◌, arith,
  Option, some, length,
}
use choochoo_os.Base.Int.{pos, negsuc, ◌-ℤ◌, ◌+ℤ◌}
use choochoo_os.User.Track.{track_max, EdgeRef}
use choochoo_os.User.Djikstra.{
  Query, Search, Way, Round, at_dest, no_path, go_on, inf, start, Trace, traced, outside,
  out_of_fuel, do_edge_trace, finish, do_djikstra,
}
use choochoo_os.User.Djikstra.Rounds.{search_ends, Ends, unvisited_le}
use choochoo_os.User.Djikstra.Shortest.{Answers, search-Answers}
use choochoo_os.User.Djikstra.Tracing.{Writes, trace_ends, trace-Writes, trace_outside}
use choochoo_os.User.Djikstra.Relax.{IsDest}
use choochoo_os.User.Djikstra.Sound.{IsRoute, length_mm, InTrack, Recorded}

-- The route of `q` that the result `r` describes is a shortest one to the destination or to its
-- reverse node: its edges are in the array from index 0 on and its length is returned. With more than
-- 131 edges the limit of do_edge_trace makes it write in front of the array. Without a route, -1.
abbrev pub Outcome : Query → (ℕ → Option EdgeRef) → Trace → Type 0
Outcome q g r =
    ((r ≡ traced (negsuc 0) g)
      × ((v : ℕ) (es : List Way) → IsDest q v → IsRoute q es v → inf ≤ length_mm es))
    ⊎ ((t : ℕ) × (es : List Way) × IsDest q t
        × IsRoute q es t
        × ((v : ℕ) (ds : List Way) → IsDest q v → IsRoute q ds v → length_mm es ≤ length_mm ds)
        × (((length es ≤ 131) × Writes g (pos (length es)) es r)
            ⊎ ((131 < length es) × (r ≡ outside))))

Recorded-IsRoute :
    (q : Query) (s : Search) (es : List Way) (v : ℕ) → Recorded q s es v → IsRoute q es v
Recorded-IsRoute q s [] v r = r
Recorded-IsRoute q s (e ∷ es) v r = (r.1, r.2, Recorded-IsRoute q s es e.node r.7)

abbrev result_of : Trace → Trace
result_of (traced tot g') = traced (tot +ℤ pos 1) g'
result_of outside = outside
result_of out_of_fuel = out_of_fuel

finish-at_dest :
    (q : Query) (g : ℕ → Option EdgeRef) (t : ℕ) (s : Search)
    → finish q g (some (at_dest t s)) ≡ result_of (do_edge_trace 132 t q.source_node 0 s g)
unfolding finish
finish-at_dest q g t s = refl

finish_arrived :
    (q : Query) (g : ℕ → Option EdgeRef) (t : ℕ) (s : Search) (es : List Way)
    → Recorded q s es t
    → ((length es ≤ 131) × Writes g (pos (length es)) es (finish q g (some (at_dest t s))))
      ⊎ ((131 < length es) × (finish q g (some (at_dest t s)) ≡ outside))
finish_arrived q g t s es r = elim (short_or_long (length es)) [
  | inl l ↦ inl (
    l,
    let w = trace-Writes q s es 132 t 0 g r (omega arith) (omega arith) in
        (
          w.0,
          finish-at_dest q g t s ∙ ap result_of w.1 ∙ ap (λ n. traced n w.0) (back_up (length es)),
          w.2,
          w.3,
        ),
  )
  | inr l ↦ inr (
    l,
    finish-at_dest q g t s
        ∙ ap result_of (trace_outside q s es 132 t 0 g r (omega arith) (omega arith) (omega arith)),
  )
]
  where
    short_or_long : (n : ℕ) → (n ≤ 131) ⊎ (131 < n)
    short_or_long n = omega arith

    back_up : (n : ℕ) → pos (0 + n) -ℤ pos 1 +ℤ pos 1 ≡ pos n
    back_up n = ground arith

finish-Outcome :
    (q : Query) (g : ℕ → Option EdgeRef) (r : Round)
    → Answers q r
    → Outcome q g (finish q g (some r))
unfolding finish
finish-Outcome q g no_path a = inl (refl, a)
finish-Outcome q g (at_dest t s) a =
    inr
      (t, a.1.0, a.0, Recorded-IsRoute q s a.1.0 t a.1.1, a.1.3, finish_arrived q g t s a.1.0 a.1.1)
finish-Outcome q g (go_on s) a = absurd a

-- Given that every edge leads to a node of the array and has no negative distance, do_djikstra ends,
-- with the edges of a shortest route from the source to the destination or its reverse in the array
-- and their number, if there are at most 131; with a write in front of the array, if there are more;
-- and with -1 only if every route is at least 2147483647 long.
pub do_djikstra_shortest :
    (q : Query) (g : ℕ → Option EdgeRef) → InTrack q → Outcome q g (do_djikstra q g)
do_djikstra_shortest q g h =
    let found : Ends q (Answers q) 145 (start q) = search-Answers q h in
    subst (λ o. Outcome q g (finish q g o)) (sym found.1) (finish-Outcome q g found.0 found.2)

result_of_ends : (t : Trace) → t ≢ out_of_fuel → result_of t ≢ out_of_fuel
result_of_ends (traced n g) h e = ground arith
result_of_ends outside h e = ground arith
result_of_ends out_of_fuel h e = h refl

finish_ends : (q : Query) (g : ℕ → Option EdgeRef) (r : Round) → finish q g (some r) ≢ out_of_fuel
unfolding finish
finish_ends q g no_path e = ground arith
finish_ends q g (at_dest t s) e =
    result_of_ends (do_edge_trace 132 t q.source_node 0 s g)
      (trace_ends s 132 t q.source_node 0 g (omega arith) (omega arith)) e
finish_ends q g (go_on s) e = ground arith

-- do_djikstra ends, in 145 rounds and 132 calls of do_edge_trace at most, on every track and array.
pub do_djikstra_ends : (q : Query) (g : ℕ → Option EdgeRef) → do_djikstra q g ≢ out_of_fuel
do_djikstra_ends q g =
    let found : Ends q (λ _. Unit) 145 (start q) =
      search_ends q (λ _. Unit) (λ _. Unit) (λ _ _ _. tt) (λ _ _ _ _ _. tt) (λ _ _ _ _ _. tt) 145
        (start q) (omega (arith, unvisited_le (λ _. false) track_max)) tt in
    subst (λ o. finish q g o ≢ out_of_fuel) (sym found.1) (finish_ends q g found.0)
