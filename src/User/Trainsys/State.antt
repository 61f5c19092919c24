-- ===== src/User/Trainsys/State.antt =====
-- user/trainsys-server/interface.h and server.c, user/traindata/train_data.h: the trains and their state.
use choochoo_os.Base.{
  ℕ, zero, suc, ◌+◌, ◌-◌, ◌*◌, ◌/◌, ◌%◌, Bool, true, false, ◌||◌, Option, none, some, ltb, ◌==◌,
  if◌then◌else◌, update,
}
pub use choochoo_os.Base.{◌>>=◌}
pub use choochoo_os.User.TrainData.{train_data_trains}
unfoldable pub use choochoo_os.User.TrainData.{index_from, get_train_index}
use choochoo_os.Base.Int.{ℤ, pos, negsuc}
use choochoo_os.User.Switch.{SwitchMode}
use choochoo_os.User.Track.{TrackNode}

-- `other` stands for a number that is no type of request.
pub data TrainSystemRequestType : Type 0 where
  system_set_speed system_set_lights system_get_train system_sensor_hit : TrainSystemRequestType
  system_switch_change system_reverse system_reverse_reverse : TrainSystemRequestType
  system_reverse_restart system_get_train_position system_stop_train other : TrainSystemRequestType

pub record TrainSystemRequest : Type 0 where
  pub type : TrainSystemRequestType
  pub train : ℤ
  pub speed : ℤ
  pub light_status : Bool
  pub sensor_hit : ℤ

pub record TrainSystemResponse : Type 0 where
  pub type : TrainSystemRequestType
  pub train_state : ℕ
  pub train : ℤ
  pub next_sensor_id : ℤ
  pub prev_sensor_id : ℤ
  pub dist_to_next : ℤ
  pub was_already_reversing : Bool
  pub position : ℤ

abbrev pub response : TrainSystemRequestType → TrainSystemResponse
response type = record {
  type = type;
  train_state = 0;
  train = pos 0;
  next_sensor_id = pos 0;
  prev_sensor_id = pos 0;
  dist_to_next = pos 0;
  was_already_reversing = false;
  position = pos 0;
}

abbrev pub trains_count : ℕ
trains_count = 81

-- The number 0 in `reverse_tasks` means that no task reverses the train.
pub record Server : Type 0 where
  pub train_states : ℕ → ℕ
  pub train_positions : ℕ → ℤ
  pub reversed : ℕ → Bool
  pub reverse_tasks : ℕ → ℕ
  pub train_next_sensors : ℕ → ℕ → ℤ

-- What the server reads or is told during a step: the track, the answers of the switch server, the
-- index of a sensor's name in the node map, the task that Create makes, and what a variable that is
-- not initialised holds.
pub record Answers : Type 0 where
  pub track : ℕ → TrackNode
  pub modes : ℤ → SwitchMode
  pub node_index : ℕ → Option ℕ
  pub created : ℕ
  pub uninitialised : Bool

pub data Output : Type 0 where
  reply : ℕ → TrainSystemResponse → Output
  io_marklin_set_train : ℕ → ℕ → Output
  io_marklin_reverse_train_0 : ℕ → ℕ → ℕ → Output
  render_predict_next_sensor : ℕ → ℤ → Output
  create_reverse_task : ℕ → ℕ → ℕ → Output

-- The bitwise or of the low `n` bits.
unfoldable pub or_bits : ℕ → ℕ → ℕ → ℕ
or_bits zero a b = 0
or_bits (suc n) a b =
    2 * or_bits n (a / 2) (b / 2) + (if (a % 2 == 1) || (b % 2 == 1) then 1 else 0)

-- state & ~TRAIN_SPEED_MASK, and state & TRAIN_SPEED_MASK.
abbrev pub without_speed : ℕ → ℕ
without_speed state = state - state % 16

abbrev pub speed_of : ℕ → ℕ
speed_of state = state % 16

-- (state & ~TRAIN_SPEED_MASK) | speed, in a `uint8_t`.
unfoldable pub with_speed : ℕ → ℕ → ℕ
with_speed state speed = or_bits 8 (without_speed state) speed

unfoldable pub with_lights : Bool → ℕ → ℕ
with_lights true state = or_bits 8 state 16
with_lights false state = state - 16 * (state / 16 % 2)

-- The place of a train in the arrays of TRAINS_COUNT.
unfoldable pub slot : ℤ → Option ℕ
slot (pos n) = if ltb n trains_count then some n else none
slot (negsuc _) = none

abbrev pub set_state : ℕ → ℕ → Server → Server
set_state train state s = record s { train_states = update s.train_states train state }

abbrev pub set_next : ℕ → ℤ → ℤ → Server → Server
set_next i first second s = record s {
  train_next_sensors =
      update s.train_next_sensors i (update (update (s.train_next_sensors i) 0 first) 1 second);
}
