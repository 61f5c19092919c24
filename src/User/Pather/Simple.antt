-- ===== src/User/Pather/Simple.antt =====
-- user/pathfinder-server/server.c: PatherSimplePath counts every zone of its path down.
use mathlib.Core.Path.{subst}
use choochoo_os.Base.{
  ℕ, ◌+◌, ◌≡◌, refl, sym, inl, inr, Bool, true, false, Bool-cases, Option, none, some,
  if◌then◌else◌, List, [], ◌∷◌, arith,
}
use choochoo_os.Base.Int.{ℤ, pos}
use choochoo_os.User.Track.{
  TrackNode, TrackEdge, EdgeType, edge_forward, edge_reverse, NodeType, node_none, node_sensor,
  node_branch, node_merge, node_enter, node_exit,
}
use choochoo_os.User.Pather.{
  Output, set_speed, World, send, Plan, plan, is_ahead, set_switch_at, set_switches, release_all,
  stop_train, destination, destination_by,
}
use choochoo_os.User.Pather.Drive.{
  Drive, Run, returns, faults, release_source, slow_speed, short_move_to, long_move, move,
  backwards, simple_path_from, pather_simple_path,
}
use choochoo_os.User.Pather.Release.{
  into, freed, freed-append, Counted, Counted-trans, Counted-send, release_all-Counted,
}
use choochoo_os.User.Pather.Account.{stop_train-sends, follow-Counted}
use choochoo_os.User.Pather.Account.Pass.{held, LastTo, source-Counted}

-- The path ends with a drive to a node that has its index for its number, as a sensor has.
abbrev pub EndsAt : (ℕ → TrackNode) → List TrackEdge → Type 0
EndsAt track [] = ⊥
EndsAt track (e ∷ []) = (e.type ≡ edge_forward) × ((track e.dest).num ≡ pos e.dest)
EndsAt track (e ∷ f ∷ es) = EndsAt track (f ∷ es)

-- The last edge as the walk from the end finds it.
pub last_edge :
    (track : ℕ → TrackNode) (before : List TrackEdge) (e : TrackEdge) (es : List TrackEdge)
    → EndsAt track (e ∷ es)
    → (last : TrackEdge) × (back : List TrackEdge) × (backwards before (e ∷ es) ≡ last ∷ back)
      × LastTo track (pos (destination last)) (e ∷ es)
last_edge track before e [] h =
    (e, before, refl, subst (λ n. (track e.dest).num ≡ pos n) (sym (forwards e.type e h.0)) h.1)
  where
    forwards : (t : EdgeType) (x : TrackEdge) → t ≡ edge_forward → destination_by t x ≡ x.dest
    forwards edge_forward x k = refl
    forwards edge_reverse x k = absurd (ground arith)
last_edge track before e (f ∷ es) h = last_edge track (e ∷ before) f es h

module _ (d : Drive) (z : ℕ) where
  open d use {track, train}

  set_switches-sends : (es : List TrackEdge) → freed z (set_switches track es) ≡ 0
  unfolding set_switches set_switch_at
  set_switches-sends [] = refl
  set_switches-sends (e ∷ es) = omega (
    arith,
    one (track e.src).type,
    set_switches-sends es,
    freed-append z (set_switch_at (track e.src) e (track e.src).type) (set_switches track es),
  )
    where
      one : (t : NodeType) → freed z (set_switch_at (track e.src) e t) ≡ 0
      one node_none = refl
      one node_sensor = refl
      one node_branch = refl
      one node_merge = refl
      one node_enter = refl
      one node_exit = refl

  short_move-Counted :
      (src slow : ℤ) (path : List TrackEdge) (rev : Bool) (hits : List ℤ) (w w' : World)
      → short_move_to d src path rev hits w ≡ returns w'
      → Counted z (held z src rev + into track z path) w w'
  short_move-Counted src slow path rev [] w w' e = absurd (ground arith)
  short_move-Counted src slow path rev (hit ∷ hits) w w' e =
      released (release_source train src rev w) refl e
    where
      freed_world : World → World
      freed_world u = record (release_all train track path u) { sensors = hits }

      stopped : World → World
      stopped u = send (stop_train train d.final_destination) (freed_world u)

      same : {a b : World} → returns a ≡ returns b → a ≡ b
      same k = ground arith

      released :
          (o : Option World)
          → release_source train src rev w ≡ o
          → elim o [
            | none ↦ faults
            | some u ↦ returns (
                send
                  (stop_train train d.final_destination)
                  (record (release_all train track path u) { sensors = hits }))
          ]
            ≡ returns w'
          → Counted z (held z src rev + into track z path) w w'
      released none s g = absurd (ground arith)
      released (some u) s g = subst (Counted z (held z src rev + into track z path) w) (same g) (
          subst (λ n. Counted z n w (stopped u)) (omega arith)
            (Counted-trans z (held z src rev + into track z path) 0 w (freed_world u) (stopped u)
              (Counted-trans z (held z src rev) (into track z path) w u (freed_world u)
                (source-Counted d src z rev w u s) (release_all-Counted train z track path u))
              (Counted-send z (stop_train train d.final_destination) (freed_world u)
                (stop_train-sends d src z d.final_destination))))

  move-Counted :
      (first : TrackEdge) (slow : ℤ) (p : Plan) (dest : ℕ) (path : List TrackEdge) (rev : Bool)
      (w w' : World)
      → LastTo track (pos dest) path
      → move d first slow p dest path rev w ≡ returns w'
      → Counted z (held z (track first.src).zone rev + into track z path) w w'
  move-Counted first slow p dest path rev w w' last e =
      elim (Bool-cases (is_ahead first.src p.waiting_sensor)) [
        | inl k ↦ by_sensor p.waiting_sensor (pick _ _ k e)
        | inr k ↦
            counted (set_speed train slow)
              (short_move-Counted src slow path rev w.sensors (send (set_speed train slow ∷ []) w)
                w' (leave _ _ k e))
              refl
      ]
    where
      src : ℤ
      src = (track first.src).zone

      pick : {b : Bool} (x y : Run) → b ≡ true → (if b then x else y) ≡ returns w' → x ≡ returns w'
      pick x y k g = ground arith

      leave :
          {b : Bool} (x y : Run) → b ≡ false → (if b then x else y) ≡ returns w' → y ≡ returns w'
      leave x y k g = ground arith

      counted :
          (o : Output)
          → Counted z (held z src rev + into track z path) (send (o ∷ []) w) w'
          → freed z (o ∷ []) ≡ 0
          → Counted z (held z src rev + into track z path) w w'
      counted o c h =
          subst (λ n. Counted z n w w') (omega arith)
            (Counted-trans z 0 (held z src rev + into track z path) w (send (o ∷ []) w) w'
              (Counted-send z (o ∷ []) w h) c)

      by_sensor :
          (o : Option ℕ)
          → elim o [
            | none ↦ faults
            | some waiting ↦ long_move d src slow p.train_speed waiting dest path rev w
          ]
            ≡ returns w'
          → Counted z (held z src rev + into track z path) w w'
      by_sensor none g = absurd (ground arith)
      by_sensor (some waiting) g =
          counted (set_speed train (pos p.train_speed))
            (follow-Counted d src z slow (track waiting).num dest w.sensors path rev
              (send (set_speed train (pos p.train_speed) ∷ []) w) w' (inl last) g)
            refl

-- A drive of PatherSimplePath that comes to its end, a path whose last edge leads on to a sensor, has
-- counted every zone down by the number of the path's edges that lead into it, and once more for the
-- zone of the source behind a reversal; and it has given a zone back once if its count ran out with
-- this, and not at all otherwise.
pub pather_simple_path-Counted :
    (d : Drive) (z : ℕ) (e : TrackEdge) (es : List TrackEdge) (rev : Bool) (w w' : World)
    → EndsAt d.track (e ∷ es)
    → pather_simple_path d (e ∷ es) rev w ≡ returns w'
    → Counted z (held z (d.track e.src).zone rev + into d.track z (e ∷ es)) w w'
unfolding pather_simple_path
pather_simple_path-Counted d z e es rev w w' ends h =
    let l = last_edge d.track [] e es ends in
    driven l.0 l.3 (plan d.track e.src (l.0 ∷ l.1) d.train d.offset d.speed) (slow_speed d)
      (subst (λ b. simple_path_from d e (e ∷ es) b rev w ≡ returns w') l.2 h)
  where
    total : ℕ
    total = held z (d.track e.src).zone rev + into d.track z (e ∷ es)

    thrown : World
    thrown = send (set_switches d.track (e ∷ es)) w

    driven :
        (last : TrackEdge)
        → LastTo d.track (pos (destination last)) (e ∷ es)
        → (o : Option Plan) (s : Option ℤ)
        → elim o [
          | none ↦ faults
          | some p ↦ elim s [
            | none ↦ faults
            | some slow ↦ move d e slow p (destination last) (e ∷ es) rev thrown
          ]
        ]
          ≡ returns w'
        → Counted z total w w'
    driven last k none s g = absurd (ground arith)
    driven last k (some p) none g = absurd (ground arith)
    driven last k (some p) (some slow) g =
        subst (λ n. Counted z n w w') (omega arith)
          (Counted-trans z 0 total w thrown w'
            (Counted-send z (set_switches d.track (e ∷ es)) w (set_switches-sends d z (e ∷ es)))
            (move-Counted d z e slow p (destination last) (e ∷ es) rev thrown w' k g))
