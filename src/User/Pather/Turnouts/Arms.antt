-- ===== src/User/Pather/Turnouts/Arms.antt =====
-- user/pathfinder-server/server.c with user/switch-server/server.c: one turnout and the arm that it is
-- set to.
use mathlib.Core.Option.{some-injective}
use choochoo_os.Base.{
  ℕ, ◌≡◌, ◌≢◌, refl, ap, ◌∙◌, sym, ◌⊎◌, inl, inr, true, false, ◌&&◌, not_both, Bool-cases, ◌==◌,
  ==→eq, ==_refl, Option, none, some, if◌then◌else◌, if-cases, update, arith,
}
use choochoo_os.Base.Int.{ℤ, eqb_ℤ, eqb_ℤ→eq, eqb_ℤ_refl}
use choochoo_os.User.Switch.{
  SwitchMode, switch_mode_s, switch_mode_c, Server, get_switch_index, other_of, set_switch,
}
use choochoo_os.User.Switch.Pairs.{opposite, set_states, states-set_switch, other_of-ne}
use choochoo_os.User.Track.{
  TrackNode, TrackEdge, EdgeType, edge_forward, edge_reverse, dir_straight, dir_curved,
}
use choochoo_os.User.TrackWalk.{same_type, track_edge_cmp, next_of_branch}

-- Setting the turnout `n` to the mode `m'` leaves the one with the index `j` in the mode `m`.
abbrev pub Leaves : ℕ → SwitchMode → ℤ → SwitchMode → Type 0
Leaves j m n m' =
    (get_switch_index n ≡ some j → m' ≡ m)
    × ((id : ℤ) → other_of n ≡ some (id, j) → opposite m' ≡ m)

same_type→eq : (a b : EdgeType) → same_type a b ≡ true → a ≡ b
same_type→eq edge_forward edge_forward h = refl
same_type→eq edge_forward edge_reverse h = absurd (ground arith)
same_type→eq edge_reverse edge_forward h = absurd (ground arith)
same_type→eq edge_reverse edge_reverse h = refl

pub track_edge_cmp→eq : (a b : TrackEdge) → track_edge_cmp a b ≡ true → a ≡ b
unfolding track_edge_cmp
track_edge_cmp→eq a b h = ground (arith, same_type→eq a.type b.type, eqb_ℤ→eq a.dist b.dist)

track_edge_cmp_refl : (a : TrackEdge) → track_edge_cmp a a ≡ true
unfolding track_edge_cmp
track_edge_cmp_refl a = by_type a.type
  where
    by_type :
        (t : EdgeType)
        → (same_type t t
            && ((a.src == a.src)
                && ((a.dest == a.dest)
                    && (eqb_ℤ a.dist a.dist
                        && ((a.reverse.node == a.reverse.node)
                            && (a.reverse.dir == a.reverse.dir))))))
          ≡ true
    by_type edge_forward =
        rw
          (
            ==_refl a.src,
            ==_refl a.dest,
            eqb_ℤ_refl a.dist,
            ==_refl a.reverse.node,
            ==_refl a.reverse.dir,
          )
          refl
    by_type edge_reverse =
        rw
          (
            ==_refl a.src,
            ==_refl a.dest,
            eqb_ℤ_refl a.dist,
            ==_refl a.reverse.node,
            ==_refl a.reverse.dir,
          )
          refl

-- The mode that is asked for leads along the edge.
pub asked-mode :
    (n : TrackNode) (e : TrackEdge)
    → (e ≡ n.edge dir_straight) ⊎ (e ≡ n.edge dir_curved)
    → next_of_branch n
        (if track_edge_cmp (n.edge dir_straight) e then switch_mode_s else switch_mode_c)
      ≡ some e
asked-mode n e h = elim (Bool-cases (track_edge_cmp (n.edge dir_straight) e)) [
  | inl k ↦ rw k (ap (λ x. some x) (track_edge_cmp→eq (n.edge dir_straight) e k))
  | inr k ↦ rw k (ap (λ x. some x) (curved k h))
]
  where
    curved :
        track_edge_cmp (n.edge dir_straight) e ≡ false
        → (e ≡ n.edge dir_straight) ⊎ (e ≡ n.edge dir_curved)
        → n.edge dir_curved ≡ e
    curved k (inl s) = absurd (
        not_both (track_edge_cmp (n.edge dir_straight) e)
          (ap (track_edge_cmp (n.edge dir_straight)) s ∙ track_edge_cmp_refl (n.edge dir_straight))
          k)
    curved k (inr c) = sym c

-- A turnout that stands as an edge needs it, and what is set later leaves it.
module _ (j : ℕ) (m : SwitchMode) where
  pub left :
      (n : ℤ) (m' : SwitchMode) (s : Server)
      → Leaves j m n m'
      → s.switch_states j ≡ m
      → (set_switch n m' s).0.switch_states j ≡ m
  left n m' s l e = states-set_switch n m' s j ∙ by_place (get_switch_index n) (other_of n) l.0 l.1
    where
      written :
          (r : ℕ → SwitchMode) (i : ℕ) (v : SwitchMode)
          → (i ≡ j → v ≡ m)
          → r j ≡ m
          → update r i v j ≡ m
      written r i v h k = if-cases (λ x. x ≡ m) (i == j) (λ t. h (==→eq i j t)) (λ _. k)

      by_place :
          (o : Option ℕ) (p : Option (ℤ × ℕ))
          → (o ≡ some j → m' ≡ m)
          → ((id : ℤ) → p ≡ some (id, j) → opposite m' ≡ m)
          → set_states m' o p s.switch_states j ≡ m
      by_place none none h k = e
      by_place (some i) none h k = written s.switch_states i m' (λ x. h (ap (λ a. some a) x)) e
      by_place none (some (id, i)) h k =
          written s.switch_states i (opposite m') (λ x. k id (ap (λ a. some (id, a)) x)) e
      by_place (some i) (some (id, i')) h k =
          written (update s.switch_states i m') i' (opposite m')
            (λ x. k id (ap (λ a. some (id, a)) x))
            (written s.switch_states i m' (λ x. h (ap (λ a. some a) x)) e)

  pub own :
      (n : ℤ) (s : Server) → get_switch_index n ≡ some j → (set_switch n m s).0.switch_states j ≡ m
  own n s e =
      states-set_switch n m s j
      ∙ by_place (get_switch_index n) (other_of n) e (λ id. other_of-ne n id j e)
    where
      by_place :
          (o : Option ℕ) (p : Option (ℤ × ℕ))
          → o ≡ some j
          → ((id : ℤ) → p ≢ some (id, j))
          → set_states m o p s.switch_states j ≡ m
      by_place none p h k = absurd (ground arith)
      by_place (some i) none h k = rw (some-injective _ _ h) (rw (==_refl j) refl)
      by_place (some i) (some (id, i')) h k =
          if-cases (λ x. x ≡ m) (i' == j)
            (λ t. absurd (k id (ap (λ a. some (id, a)) (==→eq i' j t))))
            (λ _. rw (some-injective _ _ h) (rw (==_refl j) refl))
