-- ===== src/User/Pather/Arrives.antt =====
-- user/pathfinder-server/server.c: PatherSimplePath ends when the sensor at its destination is hit.
pub mod Planned
use mathlib.Core.Path.{subst}
use mathlib.Core.Option.{some-injective}
use choochoo_os.Base.{
  below, below_at, ℕ, zero, suc, ◌+◌, ◌<◌, ◌≤◌, ◌≡◌, refl, ap, ◌∙◌, sym, ◌⊎◌, inl, inr, Bool, true,
  false, Bool-cases, ◌==◌, Option, none, some, ◌>>=◌, if◌then◌else◌, List, [], ◌∷◌, ◌++◌, arith,
}
use choochoo_os.Base.Int.{ℤ, pos, negsuc, ◌-ℤ◌, eqb_ℤ, to_int, to_u32}
use choochoo_os.User.Track.{TrackNode, TrackEdge, EdgeType, edge_forward, edge_reverse}
use choochoo_os.User.TrainData.{
  elem, index_from, get_train_index, get_speed_index, train_data_stop_dist,
}
use choochoo_os.User.TrainData.Measured.{
  train_data_speeds, train_data_stop_dist_table, train_data_short_move_speed,
}
use choochoo_os.User.Pather.{
  set_speed, World, send, Plan, plan_at, plan_from, plan, waiting_from, is_ahead, rounds,
  set_switches, release, release_all, stop_train, destination, destination_by,
}
use choochoo_os.User.Pather.Drive.{
  Drive, Run, returns, waits, faults, Ahead, release_source, release_zone, pass, follow, at_sensor,
  slow_speed, short_move_to, short_move, long_move, move, backwards, simple_path_from,
  pather_simple_path,
}
use choochoo_os.User.Pather.Release.{into, Counted}
use choochoo_os.User.Pather.Account.Pass.{held}
use choochoo_os.User.Pather.Simple.{EndsAt, last_edge, pather_simple_path-Counted}
use choochoo_os.User.Pather.Arrives.Planned.{plan-some, few_trains, slow_speed-some}

-- The source behind a reversal lies in a zone.
abbrev pub Known : ℤ → Bool → Type 0
Known src rev = (rev ≡ false) ⊎ ((y : ℕ) × (src ≡ pos y))

-- The sensor is among those that are hit.
abbrev pub Comes : ℤ → List ℤ → Type 0
Comes n [] = ⊥
Comes n (hit ∷ hits) = (eqb_ℤ hit n ≡ true) ⊎ Comes n hits

abbrev Done : Run → Type 0
Done r = (w : World) × (r ≡ returns w)

source-Known :
    (train : ℕ) (src : ℤ) (rev : Bool) (w : World)
    → Known src rev
    → (u : World) × (release_source train src rev w ≡ some u)
source-Known train src false w k = (w, refl)
source-Known train src true w (inl e) = absurd (ground arith)
source-Known train src true w (inr (y, e)) =
    (release train (pos y) w, ap (λ s. release_zone train s w) e)

module _ (d : Drive) (src : ℤ) where
  open d use {track, train}

  pass-some :
      (hit : ℤ) (before es : List TrackEdge) (rev : Bool) (w : World)
      → Known src rev
      → (a : Ahead) × (pass d src hit before es rev w ≡ some a) × Known src a.src_is_rev
  unfolding pass
  pass-some hit before [] rev w k =
      (record { edges = before; src_is_rev = rev; world = w }, refl, k)
  pass-some hit before (x ∷ es) rev w k = elim (Bool-cases (eqb_ℤ (track x.dest).num hit)) [
    | inl e ↦
        let u = source-Known train src rev w k in
        let r =
          pass-some hit [] es false (release_all train track (before ++ x ∷ []) u.0) (inl refl) in
        (r.0, rw (e, u.1) r.1, r.2)
    | inr e ↦ let r = pass-some hit (before ++ x ∷ []) es rev w k in (r.0, rw e r.1, r.2)
  ]

  round-Done :
      (dest : ℕ) (hit : ℤ) (hits : List ℤ) (next : Ahead → Run) (o : Option Ahead) (a : Ahead)
      → o ≡ some a
      → (eqb_ℤ hit (pos dest) ≡ true) ⊎ ((eqb_ℤ hit (pos dest) ≡ false) × Done (next a))
      → Done (elim o [
        | none ↦ faults
        | some a ↦
            if eqb_ℤ hit (pos dest) then returns (record a.world { sensors = hits }) else next a
      ])
  round-Done dest hit hits next none a e h = absurd (ground arith)
  round-Done dest hit hits next (some b) a e (inl k) =
      (record b.world { sensors = hits }, rw k refl)
  round-Done dest hit hits next (some b) a e (inr (k, r)) =
      (r.0, rw k (ap next (some-injective _ _ e) ∙ r.1))

  follow-Done :
      (slow waiting : ℤ) (dest : ℕ) (hits : List ℤ) (edges : List TrackEdge) (rev : Bool)
      (w : World)
      → Known src rev
      → Comes (pos dest) hits
      → Done (follow d src slow waiting dest hits edges rev w)
  unfolding follow
  follow-Done slow waiting dest [] edges rev w k c = absurd c
  follow-Done slow waiting dest (hit ∷ hits) edges rev w k c =
      let r = pass-some hit [] edges rev (send (at_sensor d slow waiting dest hit) w) k in
      round-Done dest hit hits
        (λ a. follow d src slow waiting dest hits a.edges a.src_is_rev a.world)
        (pass d src hit [] edges rev (send (at_sensor d slow waiting dest hit) w)) r.0 r.1
        (elim (Bool-cases (eqb_ℤ hit (pos dest))) [
          | inl e ↦ inl e
          | inr e ↦ inr (
            e,
            follow-Done slow waiting dest hits r.0.edges r.0.src_is_rev r.0.world r.2 (later e c),
          )
        ])
    where
      later :
          eqb_ℤ hit (pos dest) ≡ false
          → (eqb_ℤ hit (pos dest) ≡ true) ⊎ Comes (pos dest) hits
          → Comes (pos dest) hits
      later e (inl f) = absurd (ground arith)
      later e (inr c) = c

module _ (d : Drive) where
  open d use {track, train}

  move-Done :
      (first : TrackEdge) (slow : ℤ) (p : Plan) (dest : ℕ) (path : List TrackEdge) (rev : Bool)
      (w : World)
      → Known (track first.src).zone rev
      → Comes (pos dest) w.sensors
      → Done (move d first slow p dest path rev w)
  move-Done first slow p dest path rev w k c =
      elim (Bool-cases (is_ahead first.src p.waiting_sensor)) [
        | inl e ↦ rw e (long p.waiting_sensor e)
        | inr e ↦ rw e (short w.sensors c)
      ]
    where
      src : ℤ
      src = (track first.src).zone

      started : World
      started = send (set_speed train slow ∷ []) w

      short :
          (hits : List ℤ) → Comes (pos dest) hits → Done (short_move_to d src path rev hits started)
      short [] c = absurd c
      short (hit ∷ hits) c =
          let u = source-Known train src rev started k in
          (
            send (stop_train train d.final_destination)
                (record (release_all train track path u.0) { sensors = hits }),
            rw (short_move_to, u.1) refl,
          )

      long :
          (o : Option ℕ)
          → is_ahead first.src o ≡ true
          → Done (elim o [
            | none ↦ faults
            | some waiting ↦ long_move d src slow p.train_speed waiting dest path rev w
          ])
      long none e = absurd (ground arith)
      long (some waiting) e =
          follow-Done d src slow (track waiting).num dest w.sensors path rev
            (send (set_speed train (pos p.train_speed) ∷ []) w) k c

-- The last edge leads to the destination.
ends_there :
    (track : ℕ → TrackNode) (before : List TrackEdge) (e : TrackEdge) (es : List TrackEdge)
    (last : TrackEdge) (back : List TrackEdge)
    → EndsAt track (e ∷ es)
    → backwards before (e ∷ es) ≡ last ∷ back
    → destination last ≡ last.dest
ends_there track before e [] last back h b =
    subst (λ x. destination x ≡ x.dest) (head b) (forwards e.type e h.0)
  where
    forwards : (t : EdgeType) (x : TrackEdge) → t ≡ edge_forward → destination_by t x ≡ x.dest
    forwards edge_forward x k = refl
    forwards edge_reverse x k = absurd (ground arith)

    head : {x y : TrackEdge} {xs ys : List TrackEdge} → x ∷ xs ≡ y ∷ ys → x ≡ y
    head g = ground arith
ends_there track before e (f ∷ es) last back h b = ends_there track (e ∷ before) f es last back h b

-- A drive of PatherSimplePath with a train that has data, along a path whose last edge leads on to a
-- sensor, ends as soon as the sensor at the destination is among those that are hit; the zone of the
-- source is to be known behind a reversal. It has then counted every zone down by the number of the
-- path's edges that lead into it, and once more for the zone of the source behind a reversal; and it has
-- given a zone back once if its count ran out with this, and not at all otherwise.
pub pather_simple_path_arrives :
    (d : Drive) (i : ℕ) (e : TrackEdge) (es : List TrackEdge) (last : TrackEdge)
    (back : List TrackEdge) (rev : Bool) (w : World)
    → get_train_index d.train ≡ some i
    → EndsAt d.track (e ∷ es)
    → backwards [] (e ∷ es) ≡ last ∷ back
    → Known (d.track e.src).zone rev
    → Comes (pos last.dest) w.sensors
    → (w' : World) × (pather_simple_path d (e ∷ es) rev w ≡ returns w')
      × ((z : ℕ) → Counted z (held z (d.track e.src).zone rev + into d.track z (e ∷ es)) w w')
unfolding pather_simple_path
pather_simple_path_arrives d i e es last back rev w h ends b k c =
    let r = done in (r.0, r.1, λ z. pather_simple_path-Counted d z e es rev w r.0 ends r.1)
  where
    i6 : i < 6
    i6 = few_trains d.train i h

    p : (q : Plan) × (plan d.track e.src (last ∷ back) d.train d.offset d.speed ≡ some q)
    p = plan-some d i e.src (last ∷ back) h i6

    s : (s : ℤ) × (slow_speed d ≡ some s)
    s = slow_speed-some d i h i6

    moved :
        Done (
          move d e s.0 p.0 (destination last) (e ∷ es) rev (send (set_switches d.track (e ∷ es)) w))
    moved =
        move-Done d e s.0 p.0 (destination last) (e ∷ es) rev
          (send (set_switches d.track (e ∷ es)) w) k
          (subst (λ n. Comes (pos n) w.sensors) (sym (ends_there d.track [] e es last back ends b))
            c)

    done : Done (pather_simple_path d (e ∷ es) rev w)
    done =
        subst (λ l. Done (simple_path_from d e (e ∷ es) l rev w)) (sym b)
          (moved.0, rw (simple_path_from, p.1, s.1) moved.1)
