-- ===== src/User/Switch.antt =====
-- user/switch-server/server.c and interface.h, lib/switch.h: the states of the turnouts. Two pairs in
-- the centre of the track, 153 with 154 and 155 with 156, are switched together.
pub mod Pairs
mod Tests
use mathlib.Core.List.{map}
use choochoo_os.Base.{
  ℕ, ◌+◌, ◌-◌, Bool, true, false, not, ◌&&◌, ◌||◌, Option, none, some, ltb, leb, ◌==◌,
  if◌then◌else◌, update, List, [], ◌∷◌, ◌++◌,
}
use choochoo_os.Base.Int.{ℤ, pos, negsuc, eqb_ℤ}
use choochoo_os.User.Waiting.{take_all}

pub data SwitchMode : Type 0 where
  switch_mode_s switch_mode_c switch_mode_unknown : SwitchMode

abbrev pub mode_code : SwitchMode → ℕ
mode_code switch_mode_s = 33
mode_code switch_mode_c = 34
mode_code switch_mode_unknown = 420

abbrev pub mode_is : SwitchMode → SwitchMode → Bool
mode_is a b = mode_code a == mode_code b

pub data SwitchRequestType : Type 0 where
  switch_set switch_get switch_wait other : SwitchRequestType

pub record SwitchRequest : Type 0 where
  pub type : SwitchRequestType
  pub switch_id : ℤ
  pub mode : SwitchMode

pub record SwitchResponse : Type 0 where
  pub type : SwitchRequestType
  pub switch_id : ℤ
  pub mode : SwitchMode

pub record SwitchBufferRequest : Type 0 where
  pub tid : ℕ
  pub switch_id : ℤ

pub record Server : Type 0 where
  pub requests_queue : List SwitchBufferRequest
  pub switch_states : ℕ → SwitchMode

abbrev pub start : Server
start = record { requests_queue = []; switch_states = λ _. switch_mode_unknown }

pub data Output : Type 0 where
  reply : ℕ → SwitchResponse → Output
  io_marklin_set_switch : ℤ → SwitchMode → Output
  render_switch : ℤ → SwitchMode → Output

-- `none` is the index -1 of a number that is no turnout's.
unfoldable pub get_switch_index : ℤ → Option ℕ
get_switch_index (negsuc n) = none
get_switch_index (pos n) =
    if leb 1 n && leb n 18
    then some (n - 1)
    else if leb 153 n && leb n 156
    then some (n - 135)
    else none

abbrev pub waits_on : ℤ → SwitchBufferRequest → Bool
waits_on id q = eqb_ℤ q.switch_id id || eqb_ℤ q.switch_id (negsuc 0)

abbrev pub changed : SwitchRequestType → ℤ → SwitchMode → SwitchResponse
changed type id mode = record { type = type; switch_id = id; mode = mode }

-- Every task that waits for this turnout or for any wakes.
unfoldable pub unblock_on_switch : ℤ → SwitchMode → Server → Server × List Output
unblock_on_switch id mode s =
    let (woken, rest) = take_all (waits_on id) s.requests_queue in
    (record s { requests_queue = rest }, map (λ q. reply q.tid (changed switch_wait id mode)) woken)

-- A turnout whose state differs is switched, and those who wait are told.
unfoldable pub switch_turnout : ℤ → ℕ → SwitchMode → Server → Server × List Output
switch_turnout id index mode s =
    let set = record s { switch_states = update s.switch_states index mode } in
    let (s', told) = unblock_on_switch id mode set in
    if mode_is (s.switch_states index) mode
    then (s, [])
    else (s', io_marklin_set_switch id mode ∷ told)

-- The other turnout of a pair gets the other mode, and is drawn.
unfoldable pub switch_other : ℤ → ℕ → SwitchMode → Server → Server × List Output
unfolding switch_turnout
switch_other id index mode s =
    let other_mode = if mode_is mode switch_mode_s then switch_mode_c else switch_mode_s in
    let (s', told) = switch_turnout id index other_mode s in
    if mode_is (s.switch_states index) other_mode
    then (s, [])
    else (s', told ++ render_switch id other_mode ∷ [])

-- The pairs, with the index of the other turnout.
unfoldable pub other_of : ℤ → Option (ℤ × ℕ)
other_of id =
    if eqb_ℤ id (pos 153)
    then some (pos 154, 19)
    else if eqb_ℤ id (pos 154)
    then some (pos 153, 18)
    else if eqb_ℤ id (pos 155)
    then some (pos 156, 21)
    else if eqb_ℤ id (pos 156)
    then some (pos 155, 20)
    else none

-- SWITCH_SET to a known mode, behind its reply: the turnout itself, if there is one.
unfoldable pub set_own : ℤ → SwitchMode → Option ℕ → Server → Server × List Output
set_own id mode none s = (s, [])
set_own id mode (some index) s = switch_turnout id index mode s

-- Then the other of its pair, if it is in one.
unfoldable pub set_paired : SwitchMode → Option (ℤ × ℕ) → Server → Server × List Output
set_paired mode none s = (s, [])
set_paired mode (some (id, index)) s = switch_other id index mode s

unfoldable pub set_switch : ℤ → SwitchMode → Server → Server × List Output
set_switch id mode s =
    let (s1, out1) = set_own id mode (get_switch_index id) s in
    let (s2, out2) = set_paired mode (other_of id) s1 in (s2, out1 ++ out2)

-- One message from the task `from`, by its type. `none` is a read outside the array of states.
unfoldable pub handle_type :
    SwitchRequestType → ℕ → SwitchRequest → Server → Option (Server × List Output)
handle_type switch_set from q s =
    let answer = reply from (changed switch_set q.switch_id q.mode) in
    let (s', out) = set_switch q.switch_id q.mode s in
    if mode_is q.mode switch_mode_unknown then some (s, answer ∷ []) else some (s', answer ∷ out)
handle_type switch_get from q s = elim (get_switch_index q.switch_id) [
  | none ↦ none
  | some index ↦ some (s, reply from (changed switch_get q.switch_id (s.switch_states index)) ∷ [])
]
handle_type switch_wait from q s = some (
  record s {
    requests_queue = s.requests_queue ++ record { tid = from; switch_id = q.switch_id } ∷ [];
  },
  [],
)
handle_type other from q s = some (s, [])

unfoldable pub handle : ℕ → SwitchRequest → Server → Option (Server × List Output)
unfolding handle_type
handle from q s = handle_type q.type from q s
