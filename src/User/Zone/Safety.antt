-- ===== src/User/Zone/Safety.antt =====
-- A zone that a train holds is never given to another train.
use mathlib.Core.Path.{subst}
use choochoo_os.Base.{
  leb, ℕ, zero, suc, ◌+◌, ◌≡◌, refl, ◌≢◌, ◌⊎◌, inl, inr, ◌∙◌, ap, Bool, true, false, not, ◌&&◌,
  Bool-cases, some, ltb, ◌==◌, ==→eq, ==→ne, if◌then◌else◌, update, List, arith, sym,
}
use choochoo_os.Base.Int.{ℤ, pos, negsuc, eqb_ℤ}
use choochoo_os.User.Zone.{
  ZoneRequestType, zone_reserve, zone_unreserve, zone_unreserve_all, zone_unreserve_all_except,
  zone_is_reserved, zone_wait, zone_wait_change, zone_deadlock, ZoneRequest, Server, Output,
  Answers, reserve_zone, unreserve_zone, reservation_wait_unblock, unblock_all_waiting,
  unblock_stale_requests, unreserve_from, handle, handle_type, num_zones,
}

pub eqb_ℤ→eq : (a b : ℤ) → eqb_ℤ a b ≡ true → a ≡ b
eqb_ℤ→eq a b h = ground arith

pub eqb_ℤ_refl : (a : ℤ) → eqb_ℤ a a ≡ true
eqb_ℤ_refl a = ground arith

-- The request gives zone `z` back in the name of the train `t` that holds it.
abbrev pub Releases : ZoneRequest → ZoneRequestType → ℤ → ℕ → Type 0
Releases q zone_unreserve t z = (q.train ≡ t) × (q.zone ≡ z)
Releases q zone_unreserve_all t z = q.unreserve_all ≡ t
Releases q zone_unreserve_all_except t z = (q.unreserve_all ≡ t) × (z ≢ q.zone)
Releases q _ t z = ⊥

-- The zone is held as before, or free and given back by its holder.
abbrev pub KeptOrReleased : ZoneRequest → ZoneRequestType → ℤ → ℕ → ℤ → Type 0
KeptOrReleased q type t z after = (after ≡ t) ⊎ ((after ≡ pos 0) × Releases q type t z)

reservations-wait_unblock :
    (z : ℕ) (s : Server) → (reservation_wait_unblock z s).0.reservations ≡ s.reservations
unfolding reservation_wait_unblock
reservations-wait_unblock z s = ground arith

pub reservations-unblock_all :
    (s : Server) → (unblock_all_waiting s).0.reservations ≡ s.reservations
unfolding unblock_all_waiting
reservations-unblock_all s = refl

reservations-stale :
    (w : Answers) (s : Server) → (unblock_stale_requests w s).0.reservations ≡ s.reservations
unfolding unblock_stale_requests
reservations-stale w s = ground arith

reserve_zone-keeps :
    (train t : ℤ) (zone z : ℕ) (r : ℕ → ℤ)
    → r z ≡ t
    → t ≢ pos 0
    → (reserve_zone train zone r).1 z ≡ t
unfolding reserve_zone
reserve_zone-keeps train t zone z r e ne = ground (arith, eqb_ℤ→eq (r zone) (pos 0))

unreserve_zone-keeps :
    (train t : ℤ) (zone z : ℕ) (r : ℕ → ℤ)
    → r z ≡ t
    → let after = (unreserve_zone train zone r).1 z in
      (after ≡ t) ⊎ ((after ≡ pos 0) × ((train ≡ t) × (zone ≡ z)))
unfolding unreserve_zone
unreserve_zone-keeps train t zone z r e = ground (arith, eqb_ℤ→eq (r zone) train)

-- The loop over the zones from `i` on frees those of the train that are not to be kept, and no other.
abbrev pub swept : ℕ → ℕ → ℤ → (ℕ → Bool) → ℕ → ℤ → ℤ
swept left i train keep z before =
    if (leb i z && ltb z (i + left)) && (eqb_ℤ before train && not (keep z)) then pos 0 else before

module _ (train : ℤ) (keep : ℕ → Bool) (z : ℕ) where
  swept-zero : (i : ℕ) (before : ℤ) → before ≡ swept 0 i train keep z before
  swept-zero i before = ground arith

  swept-held :
      (left i : ℕ) (before : ℤ)
      → (eqb_ℤ before train && not (keep z)) ≡ true
      → i ≡ z
      → swept left (i + 1) train keep z (pos 0) ≡ swept (suc left) i train keep z before
  swept-held left i before h e = ground arith

  swept-here :
      (left i : ℕ) (before : ℤ)
      → (eqb_ℤ before train && not (keep z)) ≡ false
      → swept left (i + 1) train keep z before ≡ swept (suc left) i train keep z before
  swept-here left i before h = ground arith

  swept-away :
      (left i : ℕ) (before : ℤ)
      → i ≢ z
      → swept left (i + 1) train keep z before ≡ swept (suc left) i train keep z before
  swept-away left i before h = ground arith

  pub reservations-unreserve_from :
      (left i : ℕ) (s : Server)
      → (unreserve_from left i train keep s).0.reservations z
        ≡ swept left i train keep z (s.reservations z)
  unfolding unreserve_from
  reservations-unreserve_from zero i s = swept-zero i (s.reservations z)
  reservations-unreserve_from (suc left) i s =
      elim (Bool-cases (eqb_ℤ (s.reservations i) train && not (keep i))) [
        | inr free ↦ rw free (
            reservations-unreserve_from left (i + 1) s ∙ elim (Bool-cases (i == z)) [
              | inl same ↦
                  let e = ==→eq i z same in
                  swept-here left i (s.reservations z)
                    (subst (λ n. (eqb_ℤ (s.reservations n) train && not (keep n)) ≡ false) e free)
              | inr other ↦ swept-away left i (s.reservations z) (==→ne i z other)
            ])
        | inl held ↦
            let s1 : Server = record s { reservations = update s.reservations i (pos 0) } in
            let r = reservations-wait_unblock i s1 in
            rw held (
              reservations-unreserve_from left (i + 1) (reservation_wait_unblock i s1).0
              ∙ rw r (elim (Bool-cases (i == z)) [
                | inl same ↦
                    let e = ==→eq i z same in
                    rw same (
                      swept-held left i (s.reservations z)
                        (subst (λ n. (eqb_ℤ (s.reservations n) train && not (keep n)) ≡ true) e
                          held)
                        e)
                | inr other ↦ rw other (swept-away left i (s.reservations z) (==→ne i z other))
              ]))
      ]

-- Who holds zone `z` after a request, by its type.
abbrev pub holder_after : ZoneRequestType → ZoneRequest → Server → ℕ → ℤ
holder_after zone_reserve q s z = (reserve_zone q.train q.zone s.reservations).1 z
holder_after zone_unreserve q s z = (unreserve_zone q.train q.zone s.reservations).1 z
holder_after zone_unreserve_all q s z =
    swept num_zones 0 q.unreserve_all (λ _. false) z (s.reservations z)
holder_after zone_unreserve_all_except q s z =
    swept num_zones 0 q.unreserve_all (λ i. i == q.zone) z (s.reservations z)
holder_after _ q s z = s.reservations z

module _ (w : Answers) (from : ℕ) (q : ZoneRequest) (s s' : Server) (out : List Output) where
  reservations-swept :
      (keep : ℕ → Bool) (z : ℕ)
      → (unblock_all_waiting (unreserve_from num_zones 0 q.unreserve_all keep s).0).0 ≡ s'
      → s'.reservations z ≡ swept num_zones 0 q.unreserve_all keep z (s.reservations z)
  reservations-swept keep z e =
      ap (λ (t : Server). t.reservations z) (sym e)
      ∙ ap (λ (r : ℕ → ℤ). r z) (reservations-unblock_all _)
      ∙ reservations-unreserve_from q.unreserve_all keep z num_zones 0 s

  pub reservations-handle_type :
      (type : ZoneRequestType) (z : ℕ)
      → handle_type type w from q s ≡ some (s', out)
      → s'.reservations z ≡ holder_after type q s z
  unfolding handle_type
  reservations-handle_type zone_reserve z h = ground (
    arith,
    reservations-unblock_all
        (record s { reservations = (reserve_zone q.train q.zone s.reservations).1 }),
  )
  reservations-handle_type zone_unreserve z h =
      let s1 : Server = record s {
        reservations = (unreserve_zone q.train q.zone s.reservations).1;
      } in
      ground (
        arith,
        reservations-wait_unblock q.zone s1,
        reservations-unblock_all (reservation_wait_unblock q.zone s1).0,
      )
  reservations-handle_type zone_unreserve_all z h = reservations-swept (λ _. false) z (cc)
  reservations-handle_type zone_unreserve_all_except z h =
      reservations-swept (λ i. i == q.zone) z (cc)
  reservations-handle_type zone_is_reserved z h = ground arith
  reservations-handle_type zone_deadlock z h = ground (
    arith,
    reservations-stale w (record s {
      pacman_server = if eqb_ℤ s.pacman_server (negsuc 0) then w.pacman else s.pacman_server;
    }),
  )
  reservations-handle_type zone_wait z h = ground arith
  reservations-handle_type zone_wait_change z h = ground arith

swept-keeps :
    (q : ZoneRequest) (keep : ℕ → Bool) (t : ℤ) (z : ℕ)
    → let after = swept num_zones 0 q.unreserve_all keep z t in
      (after ≡ t) ⊎ ((after ≡ pos 0) × (q.unreserve_all ≡ t) × (keep z ≡ false))
swept-keeps q keep t z = ground (arith, eqb_ℤ→eq t q.unreserve_all)

holder_after-keeps :
    (type : ZoneRequestType) (q : ZoneRequest) (s : Server) (t : ℤ) (z : ℕ)
    → s.reservations z ≡ t
    → t ≢ pos 0
    → KeptOrReleased q type t z (holder_after type q s z)
holder_after-keeps zone_reserve q s t z e ne =
    inl (reserve_zone-keeps q.train t q.zone z s.reservations e ne)
holder_after-keeps zone_unreserve q s t z e ne =
    unreserve_zone-keeps q.train t q.zone z s.reservations e
holder_after-keeps zone_unreserve_all q s t z e ne =
    rw e (ground (arith, swept-keeps q (λ _. false) t z))
holder_after-keeps zone_unreserve_all_except q s t z e ne =
    rw e (ground (arith, swept-keeps q (λ i. i == q.zone) t z))
holder_after-keeps _ q s t z e ne = inl e

-- Nothing but a request to give a zone back, made for the train that holds it, takes the zone from
-- that train; and the zone is then free. No request gives a held zone to another train.
pub handle_keeps :
    (w : Answers) (from : ℕ) (q : ZoneRequest) (s s' : Server) (out : List Output) (t : ℤ) (z : ℕ)
    → handle w from q s ≡ some (s', out)
    → s.reservations z ≡ t
    → t ≢ pos 0
    → KeptOrReleased q q.type t z (s'.reservations z)
unfolding handle
handle_keeps w from q s s' out t z h e ne =
    rw (reservations-handle_type w from q s s' out q.type z h)
      (holder_after-keeps q.type q s t z e ne)
