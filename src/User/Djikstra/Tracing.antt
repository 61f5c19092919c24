-- ===== src/User/Djikstra/Tracing.antt =====
-- user/pathfinder-server/helpers.c: do_edge_trace writes the recorded steps in order, and
-- do_djikstra as a whole.
use choochoo_os.Base.{
  ℕ, zero, suc, ◌+◌, ◌≤◌, ◌<◌, ◌≡◌, refl, ap, ◌∙◌, ◌≢◌, ◌⊎◌, inl, inr, List, [], ◌∷◌, arith, Option,
  some, update, update_self, update_ne, ==_refl, lt→ltb, ne→==, le→ltb, length,
}
use choochoo_os.Base.Int.{ℤ, pos, negsuc, ◌-ℤ◌}
use choochoo_os.User.Track.{EdgeRef}
use choochoo_os.User.Djikstra.{
  Query, Search, Way, ref, Trace, traced, outside, out_of_fuel, write_edge, write_at, do_edge_trace,
}
use choochoo_os.User.Djikstra.Sound.{Recorded}

-- The array holds the route `es`, whose last step comes first in the list, from its start on.
abbrev pub Filled : (ℕ → Option EdgeRef) → List Way → Type 0
Filled g [] = Unit
Filled g (e ∷ es) = (g (length es) ≡ some (ref e)) × Filled g es

-- `t` returns that `n` edges were written, those of `es` from index 0 on.
abbrev pub Writes : (ℕ → Option EdgeRef) → ℤ → List Way → Trace → Type 0
Writes g n es t =
    (g' : ℕ → Option EdgeRef) × (t ≡ traced n g')
    × Filled g' es
    × ((j : ℕ) → length es ≤ j → g' j ≡ g j)

Filled-above :
    (g : ℕ → Option EdgeRef) (n : ℕ) (e : Option EdgeRef) (es : List Way)
    → length es ≤ n
    → Filled g es
    → Filled (update g n e) es
Filled-above g n e [] h f = tt
Filled-above g n e (d ∷ es) h f = (
  update_ne g n (length es) e (λ eq. absurd (omega arith)) ∙ f.0,
  Filled-above g n e es (omega arith) f.1,
)

write_edge_at :
    (e : Option EdgeRef) (tot : ℤ) (iter n : ℕ) (g : ℕ → Option EdgeRef)
    → tot -ℤ pos iter ≡ pos n
    → write_edge e iter (traced tot g) ≡ traced tot (update g n e)
write_edge_at e tot iter n g h = ap (λ i. write_at i e tot g) h

write_edge_before :
    (e : Option EdgeRef) (iter : ℕ) (g : ℕ → Option EdgeRef)
    → write_edge e iter (traced (negsuc 0) g) ≡ outside
write_edge_before e iter g = ground arith

-- One call of the recursion, away from the source and with the limit not reached.
trace_step :
    (s : Search) (k v src iter : ℕ) (g : ℕ → Option EdgeRef)
    → v ≢ src
    → iter ≤ 130
    → do_edge_trace (suc k) v src iter s g
      ≡ write_edge (s.edges v) iter (do_edge_trace k (s.prev v) src (iter + 1) s g)
unfolding do_edge_trace
trace_step s k v src iter g n l = rw (ne→== v src n, le→ltb 130 iter l)

trace_source :
    (s : Search) (k src iter : ℕ) (g : ℕ → Option EdgeRef)
    → do_edge_trace (suc k) src src iter s g ≡ traced (pos iter -ℤ pos 1) g
unfolding do_edge_trace
trace_source s k src iter g = rw (==_refl src)

trace_limit :
    (s : Search) (k v src iter : ℕ) (g : ℕ → Option EdgeRef)
    → v ≢ src
    → 130 < iter
    → do_edge_trace (suc k) v src iter s g ≡ traced (negsuc 0) g
unfolding do_edge_trace
trace_limit s k v src iter g n l = rw (ne→== v src n, lt→ltb 130 iter l)

pub trace-Writes :
    (q : Query) (s : Search) (es : List Way) (k v iter : ℕ) (g : ℕ → Option EdgeRef)
    → Recorded q s es v
    → length es < k
    → iter + length es ≤ 131
    → Writes g (pos (iter + length es) -ℤ pos 1) es (do_edge_trace k v q.source_node iter s g)
trace-Writes q s es zero v iter g r l b = absurd (omega arith)
trace-Writes q s [] (suc k) v iter g r l b = (g, at_source, tt, λ j _. refl)
  where
    at_source : do_edge_trace (suc k) v q.source_node iter s g ≡ traced (pos (iter + 0) -ℤ pos 1) g
    at_source =
        ap (λ u. do_edge_trace (suc k) u q.source_node iter s g) r
        ∙ trace_source s k q.source_node iter g
        ∙ ap (λ n. traced (pos n -ℤ pos 1) g) (omega arith)
trace-Writes q s (e ∷ es) (suc k) v iter g r l b =
    let rest : Writes g (pos (iter + 1 + length es) -ℤ pos 1) es
        (do_edge_trace k e.node q.source_node (iter + 1) s g) =
      trace-Writes q s es k e.node (iter + 1) g r.7 (omega arith) (omega arith) in
    let g' : ℕ → Option EdgeRef = update rest.0 (length es) (some (ref e)) in
    let tot : ℤ = pos (iter + 1 + length es) -ℤ pos 1 in
    (
      g',
      trace_step s k v q.source_node iter g r.0 (omega arith)
          ∙ ap (λ p. write_edge (s.edges v) iter (do_edge_trace k p q.source_node (iter + 1) s g))
              r.3
          ∙ ap (write_edge (s.edges v) iter) rest.1
          ∙ ap (λ d. write_edge d iter (traced tot rest.0)) r.4
          ∙ write_edge_at (some (ref e)) tot iter (length es) rest.0 (ground arith)
          ∙ ap (λ n. traced (pos n -ℤ pos 1) g') (omega arith),
      (
        update_self rest.0 (length es) (some (ref e)),
        Filled-above rest.0 (length es) (some (ref e)) es (omega arith) rest.2,
      ),
      λ j h.
          update_ne rest.0 (length es) j (some (ref e)) (λ eq. absurd (omega arith))
          ∙ rest.3 j (omega arith),
    )

pub trace_outside :
    (q : Query) (s : Search) (es : List Way) (k v iter : ℕ) (g : ℕ → Option EdgeRef)
    → Recorded q s es v
    → 131 < iter + length es
    → iter ≤ 130
    → 131 < k + iter
    → do_edge_trace k v q.source_node iter s g ≡ outside
trace_outside q s es zero v iter g r l b f = absurd (omega arith)
trace_outside q s [] (suc k) v iter g r l b f = absurd (omega arith)
trace_outside q s (e ∷ es) (suc k) v iter g r l b f =
    trace_step s k v q.source_node iter g r.0 b
    ∙ ap (λ p. write_edge (s.edges v) iter (do_edge_trace k p q.source_node (iter + 1) s g)) r.3
    ∙ elim (le_cases iter 129) [
      | inl near ↦
          ap (write_edge (s.edges v) iter) (
            trace_outside q s es k e.node (iter + 1) g r.7 (omega arith) (omega arith)
              (omega arith))
      | inr near ↦
          ap (write_edge (s.edges v) iter) (limit es k r.7 (omega arith) near (omega arith))
          ∙ write_edge_before (s.edges v) iter g
    ]
  where
    le_cases : (a b : ℕ) → (a ≤ b) ⊎ (b < a)
    le_cases a b = omega arith

    limit :
        (ds : List Way) (k' : ℕ)
        → Recorded q s ds e.node
        → 0 < k'
        → 129 < iter
        → 131 < iter + suc (length ds)
        → do_edge_trace k' e.node q.source_node (iter + 1) s g ≡ traced (negsuc 0) g
    limit ds zero r' k0 m l' = absurd (omega arith)
    limit [] (suc k') r' k0 m l' = absurd (omega arith)
    limit (d ∷ ds) (suc k') r' k0 m l' =
        trace_limit s k' e.node q.source_node (iter + 1) g r'.0 (omega arith)

-- The limit on the recursion stops it: 132 calls are enough from the first.
pub trace_ends :
    (s : Search) (k v src iter : ℕ) (g : ℕ → Option EdgeRef)
    → iter ≤ 131
    → 131 < k + iter
    → do_edge_trace k v src iter s g ≢ out_of_fuel
unfolding do_edge_trace
trace_ends s zero v src iter g b h = absurd (omega arith)
trace_ends s (suc k) v src iter g b h = ground (arith, trace_ends s k (s.prev v) src (iter + 1) g)
