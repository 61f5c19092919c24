-- ===== src/User/Zone.antt =====
-- user/zone-server/server.c and interface.h: which train holds which zone of the track, and the
-- tasks that wait for a zone. Commands to the terminal that only print a text are left out.
pub mod Safety
pub mod Replies
pub mod Wakeups
mod Tests
use choochoo_os.Base.{
  ℕ, zero, suc, ◌+◌, ◌%◌, ◌^◌, Bool, true, false, not, ◌&&◌, Option, none, some, ltb, ◌==◌,
  if◌then◌else◌, update, List, [], ◌∷◌, ◌++◌,
}
use choochoo_os.Base.Int.{ℤ, pos, negsuc, ◌-ℤ◌, ltb_ℤ, eqb_ℤ}
use choochoo_os.ByteQueue.Defs
use choochoo_os.ByteQueue.Defs.{BQueue}
use choochoo_os.User.Waiting.{take_first}

abbrev pub num_zones : ℕ
num_zones = 30

pub data ZoneRequestType : Type 0 where
  zone_reserve zone_unreserve zone_unreserve_all zone_unreserve_all_except : ZoneRequestType
  zone_is_reserved zone_wait zone_wait_change zone_deadlock : ZoneRequestType

-- `zone` is the bit pattern of an `int`, `unreserve_all` a train.
pub record ZoneRequest : Type 0 where
  pub type : ZoneRequestType
  pub train : ℤ
  pub zone : ℕ
  pub unreserve_all : ℤ

pub record ZoneResponse : Type 0 where
  pub type : ZoneRequestType
  pub reserve : Bool
  pub unreserve : Bool
  pub is_reserved : Bool
  pub time_out : Bool

pub record ZoneBufferRequest : Type 0 where
  pub tid : ℕ
  pub train : ℤ
  pub zone : ℕ
  pub time : ℤ

-- 0 in `reservations` means that no train holds the zone. `pacman_server` is -1 until it is known.
pub record Server : Type 0 where
  pub reservations : ℕ → ℤ
  pub zone_requests : List ZoneBufferRequest
  pub wait_change_requests : BQueue
  pub pacman_server : ℤ

unfoldable pub start : Server
start = record {
  reservations = λ _. pos 0;
  zone_requests = [];
  wait_change_requests = Defs.new_byte_queue;
  pacman_server = negsuc 0;
}

-- What a step sends: a reply, a reply that is the request itself, or a command to the terminal.
pub data Output : Type 0 where
  reply : ℕ → ZoneResponse → Output
  echo : ℕ → ZoneRequest → Output
  render_reserve_zone : ℤ → ℕ → Output
  render_unreserve_zone : ℕ → Output

-- What other servers answer during a step: the clock's time, the number of the game server, and the
-- train that it names.
pub record Answers : Type 0 where
  pub time : ℤ
  pub pacman : ℤ
  pub pac_train : ℤ

abbrev pub response : ZoneRequestType → ZoneResponse
response t = record {
  type = t;
  reserve = false;
  unreserve = false;
  is_reserved = false;
  time_out = false;
}

unfoldable pub reserve_zone : ℤ → ℕ → (ℕ → ℤ) → Bool × (ℕ → ℤ)
reserve_zone train zone r =
    if eqb_ℤ (r zone) train
    then (true, r)
    else if not (eqb_ℤ (r zone) (pos 0))
    then (false, r)
    else (true, update r zone train)

unfoldable pub unreserve_zone : ℤ → ℕ → (ℕ → ℤ) → Bool × (ℕ → ℤ)
unreserve_zone train zone r =
    if eqb_ℤ (r zone) (pos 0)
    then (true, r)
    else if not (eqb_ℤ (r zone) train)
    then (false, r)
    else (true, update r zone (pos 0))

-- Whether another train holds the zone.
unfoldable pub is_zone_reserved : ℤ → ℕ → (ℕ → ℤ) → Bool
is_zone_reserved train zone r = not (eqb_ℤ (r zone) (pos 0)) && not (eqb_ℤ (r zone) train)

abbrev pub train_holding_zone : ℕ → (ℕ → ℤ) → ℤ
train_holding_zone zone r = r zone

abbrev pub wakes_for : (ℕ → ℤ) → ℕ → ZoneBufferRequest → Bool
wakes_for r zone q = q.zone == zone && not (is_zone_reserved q.train zone r)

-- At most one task wakes: the first that waits for the zone and may have it.
unfoldable pub reservation_wait_unblock : ℕ → Server → Server × List Output
unfolding is_zone_reserved
reservation_wait_unblock zone s =
    elim (take_first (wakes_for s.reservations zone) s.zone_requests) [
      | none ↦ (s, [])
      | some (q, rest) ↦ (record s { zone_requests = rest }, reply q.tid (response zone_wait) ∷ [])
    ]

-- All tasks that wait for any change wake, in order. The queue holds at most MAX_QUEUE_LENGTH.
unfoldable pub drain : ℕ → BQueue → BQueue × List Output
drain zero q = (q, [])
drain (suc fuel) q =
    let (tid, q') = Defs.pop q in
    let rest = drain fuel q' in
    if ltb_ℤ (pos 0) (Defs.length q)
    then (rest.0, reply tid (response zone_wait) ∷ rest.1)
    else (q, [])

unfoldable pub unblock_all_waiting : Server → Server × List Output
unfolding drain
unblock_all_waiting s =
    let (q, out) = drain (suc Defs.max_queue_length) s.wait_change_requests in
    (record s { wait_change_requests = q }, out)

abbrev is_stale : Answers → (ℕ → ℤ) → ZoneBufferRequest → Bool
is_stale w r q =
    not (eqb_ℤ (train_holding_zone q.zone r) w.pac_train) && ltb_ℤ q.time (w.time -ℤ pos 500)

-- At most one task gives up: the first that has waited for more than 500 ticks for a zone that the
-- game's own train does not hold.
unfoldable pub unblock_stale_requests : Answers → Server → Server × List Output
unblock_stale_requests w s = elim (take_first (is_stale w s.reservations) s.zone_requests) [
  | none ↦ (s, [])
  | some (q, rest) ↦ (
    record s { zone_requests = rest },
    reply q.tid (record (response zone_wait) { time_out = true }) ∷ [],
  )
]

-- The loop over the zones from `i` on that gives back those of a train; `keep` is the zone that
-- ZONE_UNRESERVE_ALL_EXCEPT spares.
unfoldable pub unreserve_from : ℕ → ℕ → ℤ → (ℕ → Bool) → Server → Server × List Output
unreserve_from zero i train keep s = (s, [])
unreserve_from (suc left) i train keep s =
    let freed =
      reservation_wait_unblock i (record s { reservations = update s.reservations i (pos 0) }) in
    let held = eqb_ℤ (s.reservations i) train && not (keep i) in
    let next = unreserve_from left (i + 1) train keep (if held then freed.0 else s) in
    (next.0, if held then render_unreserve_zone i ∷ (freed.1 ++ next.1) else next.1)

-- One message from the task `from`, by its type. `none` is an access outside the array of zones.
unfoldable pub handle_type :
    ZoneRequestType → Answers → ℕ → ZoneRequest → Server → Option (Server × List Output)
handle_type zone_reserve w from q s =
    let (ret, r) = reserve_zone q.train q.zone s.reservations in
    let (s', woken) = unblock_all_waiting (record s { reservations = r }) in
    let answer = reply from (record (response zone_reserve) { reserve = ret }) ∷ woken in
    if ltb q.zone num_zones
    then some (s', if ret then render_reserve_zone q.train q.zone ∷ answer else answer)
    else none
handle_type zone_unreserve w from q s =
    let (ret, r) = unreserve_zone q.train q.zone s.reservations in
    let (s1, one) = reservation_wait_unblock q.zone (record s { reservations = r }) in
    let (s2, woken) = unblock_all_waiting s1 in
    let answer =
      reply from (record (response zone_unreserve) { unreserve = ret }) ∷ (one ++ woken) in
    if ltb q.zone num_zones
    then some (s2, if ret then render_unreserve_zone q.zone ∷ answer else answer)
    else none
handle_type zone_unreserve_all w from q s =
    let (s1, freed) = unreserve_from num_zones 0 q.unreserve_all (λ _. false) s in
    let (s2, woken) = unblock_all_waiting s1 in some (s2, freed ++ (echo from q ∷ woken))
handle_type zone_unreserve_all_except w from q s =
    let (s1, freed) = unreserve_from num_zones 0 q.unreserve_all (λ i. i == q.zone) s in
    let (s2, woken) = unblock_all_waiting s1 in some (s2, freed ++ (echo from q ∷ woken))
handle_type zone_is_reserved w from q s =
    let reserved = is_zone_reserved q.train q.zone s.reservations in
    if ltb q.zone num_zones
    then some (s, reply from (record (response zone_is_reserved) { is_reserved = reserved }) ∷ [])
    else none
handle_type zone_deadlock w from q s =
    let pacman = if eqb_ℤ s.pacman_server (negsuc 0) then w.pacman else s.pacman_server in
    let (s', out) = unblock_stale_requests w (record s { pacman_server = pacman }) in
    some (s', out ++ (reply from (response zone_deadlock) ∷ []))
handle_type zone_wait w from q s =
    let waiting = record s {
      zone_requests =
          s.zone_requests
          ++ record { tid = from; train = q.train; zone = q.zone; time = w.time } ∷ [];
    } in
    if not (ltb q.zone num_zones)
    then none
    else if not (is_zone_reserved q.train q.zone s.reservations)
    then some (s, reply from (response zone_wait) ∷ [])
    else some (waiting, [])
handle_type zone_wait_change w from q s =
    some
      (record s { wait_change_requests = (Defs.push s.wait_change_requests (from % 2 ^ 8)).0 }, [])

unfoldable pub handle : Answers → ℕ → ZoneRequest → Server → Option (Server × List Output)
unfolding handle_type
handle w from q s = handle_type q.type w from q s
