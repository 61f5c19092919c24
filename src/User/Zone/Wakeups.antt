-- ===== src/User/Zone/Wakeups.antt =====
-- Who gets a zone that is given back.
use mathlib.Core.Path.{subst, sym}
use choochoo_os.Base.{
  ℕ, ◌<◌, ◌≡◌, refl, ◌∙◌, ap, Bool, true, false, Option, some, lt→ltb, ◌==◌, if◌then◌else◌, List,
  [], ◌∷◌, ◌++◌, All, arith, inl, inr,
}
use choochoo_os.Base.Int.{ℤ, pos}
use choochoo_os.User.Waiting.{take_first, take_first-append}
use choochoo_os.User.Zone.{
  zone_unreserve, zone_wait, ZoneRequest, ZoneBufferRequest, Server, Output, reply,
  render_unreserve_zone, Answers, response, unreserve_zone, is_zone_reserved, wakes_for,
  reservation_wait_unblock, unblock_all_waiting, handle, handle_type, num_zones,
}
use choochoo_os.User.Zone.Safety.{eqb_ℤ_refl, reservations-unblock_all}
use choochoo_os.User.Zone.Replies.{Sends}

-- A zone that its holder gives back is free.
unreserve_zone-frees :
    (train : ℤ) (zone : ℕ) (r : ℕ → ℤ)
    → r zone ≡ train
    → (unreserve_zone train zone r).1 zone ≡ pos 0
unfolding unreserve_zone
unreserve_zone-frees train zone r e = ground (arith, e, eqb_ℤ_refl train)

-- Those who wait for another zone do not wake, those who wait for a free one do.
sleeps_for_other :
    (r : ℕ → ℤ) (zone : ℕ) (qs : List ZoneBufferRequest)
    → All (λ b. (b.zone == zone) ≡ false) qs
    → All (λ b. wakes_for r zone b ≡ false) qs
sleeps_for_other r zone [] h = tt
sleeps_for_other r zone (b ∷ qs) h = (rw h.0 refl, sleeps_for_other r zone qs h.1)

wakes_for_free :
    (r : ℕ → ℤ) (zone : ℕ) (b : ZoneBufferRequest)
    → r zone ≡ pos 0
    → (b.zone == zone) ≡ true
    → wakes_for r zone b ≡ true
unfolding is_zone_reserved
wakes_for_free r zone b e h = ground (arith, e, h)

module _ (zone : ℕ) (s : Server) (before after : List ZoneBufferRequest)
    (b : ZoneBufferRequest) where
  reservation_wait_unblock-free :
      s.reservations zone ≡ pos 0
      → s.zone_requests ≡ before ++ b ∷ after
      → All (λ a. (a.zone == zone) ≡ false) before
      → (b.zone == zone) ≡ true
      → reservation_wait_unblock zone s
        ≡ (record s { zone_requests = before ++ after }, reply b.tid (response zone_wait) ∷ [])
  unfolding reservation_wait_unblock
  reservation_wait_unblock-free free waiting h e =
      let found =
        ap (take_first (wakes_for s.reservations zone)) waiting
        ∙ take_first-append (wakes_for s.reservations zone) before b after
            (sleeps_for_other s.reservations zone before h)
            (wakes_for_free s.reservations zone b free e) in
      rw (reservation_wait_unblock, found) refl

zone_requests-unblock_all : (s : Server) → (unblock_all_waiting s).0.zone_requests ≡ s.zone_requests
unfolding unblock_all_waiting
zone_requests-unblock_all s = refl

Sends-behind :
    (shown : Bool) (x y z : Output) (one ys : List Output)
    → one ≡ z ∷ []
    → Sends z (if shown then x ∷ (y ∷ (one ++ ys)) else y ∷ (one ++ ys))
Sends-behind true x y z one ys e = rw e (inr (inr (inl refl)))
Sends-behind false x y z one ys e = rw e (inr (inl refl))

-- What a step for a zone does: the reservations and waiting tasks it leaves, and what it sends.
abbrev pub Freed : ℕ → List ZoneBufferRequest → Output → Option (Server × List Output) → Type 0
Freed zone waiting told step =
    (s' : Server) × (out : List Output) × (step ≡ some (s', out))
    × (s'.reservations zone ≡ pos 0)
    × (s'.zone_requests ≡ waiting)
    × Sends told out

unreserve-Freed :
    (w : Answers) (from : ℕ) (q : ZoneRequest) (s : Server) (before after : List ZoneBufferRequest)
    (b : ZoneBufferRequest)
    → q.zone < num_zones
    → s.reservations q.zone ≡ q.train
    → s.zone_requests ≡ before ++ b ∷ after
    → All (λ a. (a.zone == q.zone) ≡ false) before
    → (b.zone == q.zone) ≡ true
    → Freed q.zone
        (before ++ after)
        (reply b.tid (response zone_wait))
        (handle_type zone_unreserve w from q s)
unfolding handle_type
unreserve-Freed w from q s before after b room held waiting h e =
    let (ret, r) = unreserve_zone q.train q.zone s.reservations in
    let s0 : Server = record s { reservations = r } in
    let s1 = (reservation_wait_unblock q.zone s0).0 in
    let answer = reply from (record (response zone_unreserve) { unreserve = ret }) in
    let rest = (reservation_wait_unblock q.zone s0).1 ++ (unblock_all_waiting s1).1 in
    let free = unreserve_zone-frees q.train q.zone s.reservations held in
    let woken = reservation_wait_unblock-free q.zone s0 before after b free waiting h e in
    (
      (unblock_all_waiting s1).0,
      if ret then render_unreserve_zone q.zone ∷ (answer ∷ rest) else answer ∷ rest,
      rw (lt→ltb q.zone num_zones room) refl,
      ap (λ r. r q.zone) (reservations-unblock_all s1)
          ∙ ap (λ (p : Server × List Output). p.0.reservations q.zone) woken
          ∙ free,
      zone_requests-unblock_all s1 ∙ ap (λ (p : Server × List Output). p.0.zone_requests) woken,
      Sends-behind ret _ _ (reply b.tid (response zone_wait)) _ _
          (ap (λ (p : Server × List Output). p.1) woken),
    )

-- When the train that holds a zone gives it back, the zone is free, and of the tasks that wait for that
-- zone the one that has waited longest is told; those who wait for other zones stay as they were.
pub unreserve_wakes_first :
    (w : Answers) (from : ℕ) (q : ZoneRequest) (s : Server) (before after : List ZoneBufferRequest)
    (b : ZoneBufferRequest)
    → q.type ≡ zone_unreserve
    → q.zone < num_zones
    → s.reservations q.zone ≡ q.train
    → s.zone_requests ≡ before ++ b ∷ after
    → All (λ a. (a.zone == q.zone) ≡ false) before
    → (b.zone == q.zone) ≡ true
    → Freed q.zone (before ++ after) (reply b.tid (response zone_wait)) (handle w from q s)
unfolding handle
unreserve_wakes_first w from q s before after b type room held waiting h e =
    subst
      (λ t.
        Freed q.zone (before ++ after) (reply b.tid (response zone_wait))
          (handle_type t w from q s))
      (sym type) (unreserve-Freed w from q s before after b room held waiting h e)
