-- ===== src/User/Zone/Replies.antt =====
-- What the zone server answers, and whom it wakes.
use mathlib.Core.List.{map}
use choochoo_os.Base.{
  ℕ, zero, suc, ◌<◌, ◌≡◌, refl, ◌⊎◌, inl, inr, Bool, true, false, not, ◌&&◌, some, if◌then◌else◌,
  List, [], ◌∷◌, ◌++◌, length, arith,
}
use choochoo_os.Base.Int.{ℤ, pos, eqb_ℤ}
use choochoo_os.ByteQueue.Defs
use choochoo_os.ByteQueue.Defs.{BQueue}
use choochoo_os.ByteQueue.Refine.{Holds, pop-Holds}
use choochoo_os.User.Zone.{
  ZoneRequestType, zone_reserve, zone_unreserve, zone_is_reserved, zone_wait, ZoneRequest, Server,
  Output, reply, render_reserve_zone, render_unreserve_zone, Answers, response, reserve_zone,
  unreserve_zone, is_zone_reserved, reservation_wait_unblock, unblock_all_waiting, drain, handle,
  handle_type,
}
use choochoo_os.User.Zone.Safety.{eqb_ℤ_refl, reservations-handle_type}

-- A step sends the output, somewhere in its sequence.
abbrev pub Sends : Output → List Output → Type 0
Sends x [] = ⊥
Sends x (y ∷ ys) = (x ≡ y) ⊎ Sends x ys

-- The answer to a request whose reply carries a Boolean, by what the reservations are afterwards.
abbrev pub TruthfulReply : ZoneRequestType → ℕ → ZoneRequest → (ℕ → ℤ) → List Output → Type 0
TruthfulReply zone_reserve from q r out =
    Sends (reply from (record (response zone_reserve) { reserve = eqb_ℤ (r q.zone) q.train })) out
TruthfulReply zone_unreserve from q r out =
    Sends (reply from (record (response zone_unreserve) { unreserve = eqb_ℤ (r q.zone) (pos 0) }))
      out
TruthfulReply zone_is_reserved from q r out =
    Sends
      (reply from (record (response zone_is_reserved) {
        is_reserved = not (eqb_ℤ (r q.zone) (pos 0)) && not (eqb_ℤ (r q.zone) q.train);
      }))
      out
TruthfulReply _ from q r out = Unit

reserve_zone-truth :
    (train : ℤ) (zone : ℕ) (r : ℕ → ℤ)
    → let (ret, r') = reserve_zone train zone r in ret ≡ eqb_ℤ (r' zone) train
unfolding reserve_zone
reserve_zone-truth train zone r = ground (arith, eqb_ℤ_refl train)

unreserve_zone-truth :
    (train : ℤ) (zone : ℕ) (r : ℕ → ℤ)
    → let (ret, r') = unreserve_zone train zone r in ret ≡ eqb_ℤ (r' zone) (pos 0)
unfolding unreserve_zone
unreserve_zone-truth train zone r = ground arith

-- A reply stands first, or behind the command that shows the zone's new state.
Sends-shown :
    (b : Bool) (x y : Output) (ys out : List Output)
    → (if b then x ∷ (y ∷ ys) else y ∷ ys) ≡ out
    → Sends y out
Sends-shown true x y ys out e = rw (← e) (inr (inl refl))
Sends-shown false x y ys out e = rw (← e) (inl refl)

module _ (w : Answers) (from : ℕ) (q : ZoneRequest) (s s' : Server) (out : List Output) where
  reserve_truthful :
      handle_type zone_reserve w from q s ≡ some (s', out)
      → TruthfulReply zone_reserve from q s'.reservations out
  unfolding handle_type
  reserve_truthful h =
      rw
        (
          reservations-handle_type w from q s s' out zone_reserve q.zone h,
          ← reserve_zone-truth q.train q.zone s.reservations,
        )
        (let (ret, r) = reserve_zone q.train q.zone s.reservations in
          Sends-shown ret (render_reserve_zone q.train q.zone)
            (reply from (record (response zone_reserve) { reserve = ret }))
            (unblock_all_waiting (record s { reservations = r })).1 out (ground arith))

  unreserve_truthful :
      handle_type zone_unreserve w from q s ≡ some (s', out)
      → TruthfulReply zone_unreserve from q s'.reservations out
  unfolding handle_type
  unreserve_truthful h =
      rw
        (
          reservations-handle_type w from q s s' out zone_unreserve q.zone h,
          ← unreserve_zone-truth q.train q.zone s.reservations,
        )
        (let (ret, r) = unreserve_zone q.train q.zone s.reservations in
          let (s1, one) = reservation_wait_unblock q.zone (record s { reservations = r }) in
          Sends-shown ret (render_unreserve_zone q.zone)
            (reply from (record (response zone_unreserve) { unreserve = ret }))
            (one ++ (unblock_all_waiting s1).1) out (ground arith))

  is_reserved_truthful :
      handle_type zone_is_reserved w from q s ≡ some (s', out)
      → TruthfulReply zone_is_reserved from q s'.reservations out
  unfolding handle_type is_zone_reserved
  is_reserved_truthful h = ground arith

-- Reserve, unreserve and is-reserved are answered by the state that the step leaves: the zone is the
-- train's, the zone is free, the zone is another train's.
pub handle_truthful :
    (w : Answers) (from : ℕ) (q : ZoneRequest) (s s' : Server) (out : List Output)
    → handle w from q s ≡ some (s', out)
    → TruthfulReply q.type from q s'.reservations out
unfolding handle
handle_truthful w from q s s' out h = by_type q.type h
  where
    by_type :
        (type : ZoneRequestType)
        → handle_type type w from q s ≡ some (s', out)
        → TruthfulReply type from q s'.reservations out
    by_type zone_reserve h = reserve_truthful w from q s s' out h
    by_type zone_unreserve h = unreserve_truthful w from q s s' out h
    by_type zone_is_reserved h = is_reserved_truthful w from q s s' out h
    by_type _ h = tt

-- With fuel above its length, a queue of waiting tasks is answered whole, oldest first.
drain-Holds :
    (fuel : ℕ) (tids : List ℕ) (q : BQueue)
    → length tids < fuel
    → Holds q tids
    → ((drain fuel q).1 ≡ map (λ t. reply t (response zone_wait)) tids) × Holds (drain fuel q).0 []
unfolding drain Defs.length
drain-Holds zero tids q lt v = absurd (omega arith)
drain-Holds (suc fuel) [] q lt v = ground arith
drain-Holds (suc fuel) (t ∷ tids) q lt v =
    let p = pop-Holds v in ground (arith, p, drain-Holds fuel tids (Defs.pop q).1 (omega arith) p.1)

-- After a change every task that waits for one gets exactly one reply, in the order of the waits,
-- and none is left waiting.
pub unblock_all_waiting-Holds :
    (s : Server) (tids : List ℕ)
    → Holds s.wait_change_requests tids
    → let (s', out) = unblock_all_waiting s in
      (out ≡ map (λ t. reply t (response zone_wait)) tids)
      × Holds s'.wait_change_requests []
      × (s'.zone_requests ≡ s.zone_requests)
      × (s'.reservations ≡ s.reservations)
unfolding unblock_all_waiting
unblock_all_waiting-Holds s tids v =
    let d =
      drain-Holds (suc Defs.max_queue_length) tids s.wait_change_requests (omega (arith, v.room))
        v in
    (d.0, d.1, refl, refl)
