-- ===== src/User/Pather/Account.antt =====
-- user/pathfinder-server/server.c: the zones that PatherSimplePath has given back when the sensor at its
-- destination is hit.
pub mod Pass
use mathlib.Core.Path.{subst}
use mathlib.Core.Option.{some-injective}
use choochoo_os.Base.{
  ℕ, zero, suc, ◌+◌, ◌≡◌, ◌≢◌, refl, ap, ◌∙◌, sym, ◌⊎◌, inl, inr, Bool, true, false, Bool-cases,
  not_both, if-cases, Option, none, some, ◌>>=◌, if◌then◌else◌, List, [], ◌∷◌, ◌++◌, append_assoc,
  append-nil, All, All-append, arith,
}
use choochoo_os.Base.Int.{ℤ, pos, negsuc, eqb_ℤ, eqb_ℤ_refl, eqb_ℤ→eq}
use choochoo_os.User.Track.{TrackNode, TrackEdge, EdgeType, edge_forward, edge_reverse}
use choochoo_os.User.Pather.{World, send, release, release_all, stop_train}
use choochoo_os.User.Pather.Drive.{
  Drive, Ahead, release_zone, release_source, pass, Run, returns, waits, faults, follow, at_sensor,
}
use choochoo_os.User.Pather.Release.{
  into, into-append, is_zone, freed, Counted, Counted-refl, Counted-trans, Counted-send,
  release-Counted, release_all-Counted,
}
use choochoo_os.User.Pather.Account.Pass.{
  held, LastTo, Elsewhere, never_last, Passed, pass-Passed, Due, Due-pass, source-Counted,
}

module _ (d : Drive) (src : ℤ) (z : ℕ) where
  open d use {track, train}

  pub stop_train-sends : (final : Bool) → freed z (stop_train train final) ≡ 0
  stop_train-sends true = refl
  stop_train-sends false = refl

  pub at_sensor-sends :
      (slow waiting : ℤ) (dest : ℕ) (hit : ℤ) → freed z (at_sensor d slow waiting dest hit) ≡ 0
  at_sensor-sends slow waiting dest hit =
      if-cases (λ os. freed z os ≡ 0) (eqb_ℤ hit (pos dest))
        (λ _. stop_train-sends d.final_destination)
        (λ _. if-cases (λ os. freed z os ≡ 0) (eqb_ℤ hit waiting) (λ _. refl) (λ _. refl))

  -- A round of the loop, with what the rounds after it do.
  follow_passed :
      (dest : ℕ) (hit : ℤ) (hits : List ℤ) (edges : List TrackEdge) (rev : Bool) (sent w' : World)
      (next : Ahead → Run) (o : Option Ahead)
      → pass d src hit [] edges rev sent ≡ o
      → Due d src z (pos dest) edges rev
      → elim o [
        | none ↦ faults
        | some a ↦
            if eqb_ℤ hit (pos dest) then returns (record a.world { sensors = hits }) else next a
      ]
        ≡ returns w'
      → ((a : Ahead)
          → Due d src z (pos dest) a.edges a.src_is_rev
          → next a ≡ returns w'
          → Counted z (held z src a.src_is_rev + into track z a.edges) a.world w')
      → Counted z (held z src rev + into track z edges) sent w'
  follow_passed dest hit hits edges rev sent w' next none p due e rest = absurd (ground arith)
  follow_passed dest hit hits edges rev sent w' next (some a) p due e rest =
      elim (Bool-cases (eqb_ℤ hit (pos dest))) [
        | inl k ↦
            subst (Counted z (held z src rev + into track z edges) sent) (ended k e)
              (at_end k after)
        | inr k ↦
            subst (λ n. Counted z n sent w') (omega (arith, shares, o.3))
              (Counted-trans z (o.1 + into track z o.0)
                (held z src a.src_is_rev + into track z a.edges) sent a.world w' o.4
                (rest a after (going k e)))
      ]
    where
      o : Passed d src z hit edges rev sent a
      o = pass-Passed d src z hit [] edges rev sent a tt p

      after : Due d src z (pos dest) a.edges a.src_is_rev
      after = Due-pass d src z (pos dest) hit edges rev sent a due o

      shares : into track z edges ≡ into track z o.0 + into track z a.edges
      shares = ap (into track z) o.2 ∙ into-append track z o.0 a.edges

      ended :
          eqb_ℤ hit (pos dest) ≡ true
          → (if eqb_ℤ hit (pos dest) then returns (record a.world { sensors = hits }) else next a)
            ≡ returns w'
          → record a.world { sensors = hits } ≡ w'
      ended k g = ground arith

      going :
          eqb_ℤ hit (pos dest) ≡ false
          → (if eqb_ℤ hit (pos dest) then returns (record a.world { sensors = hits }) else next a)
            ≡ returns w'
          → next a ≡ returns w'
      going k g = ground arith

      at_end :
          eqb_ℤ hit (pos dest) ≡ true
          → Due d src z (pos dest) a.edges a.src_is_rev
          → Counted z (held z src rev + into track z edges) sent (record a.world { sensors = hits })
      at_end k (inl last) = absurd (
          never_last track (pos dest) a.edges
            (subst (λ n. All (Elsewhere track n) a.edges) (eqb_ℤ→eq hit (pos dest) k) o.5) last)
      at_end k (inr none_left) =
          subst (λ n. Counted z n sent a.world)
            (omega (arith, shares, o.3, ap (into track z) none_left.0, ap (held z src) none_left.1))
            o.4

  pub follow-Counted :
      (slow waiting : ℤ) (dest : ℕ) (hits : List ℤ) (edges : List TrackEdge) (rev : Bool)
      (w w' : World)
      → Due d src z (pos dest) edges rev
      → follow d src slow waiting dest hits edges rev w ≡ returns w'
      → Counted z (held z src rev + into track z edges) w w'
  unfolding follow
  follow-Counted slow waiting dest [] edges rev w w' due e = absurd (ground arith)
  follow-Counted slow waiting dest (hit ∷ hits) edges rev w w' due e =
      subst (λ n. Counted z n w w') (omega arith)
        (Counted-trans z 0 (held z src rev + into track z edges) w sent w'
          (Counted-send z (at_sensor d slow waiting dest hit) w
            (at_sensor-sends slow waiting dest hit))
          (follow_passed dest hit hits edges rev sent w'
            (λ a. follow d src slow waiting dest hits a.edges a.src_is_rev a.world)
            (pass d src hit [] edges rev sent) refl due e
            (λ a due' e'.
              follow-Counted slow waiting dest hits a.edges a.src_is_rev a.world w' due' e')))
    where
      sent : World
      sent = send (at_sensor d slow waiting dest hit) w
