-- ===== src/User/TrainData.antt =====
-- user/traindata/train_data.c: the track in use, and the tables of the trains. `none` is a read outside
-- an array.
pub mod Measured
pub mod Zones
pub mod Agree
pub mod ShortMove
mod Tests
use choochoo_os.Base.{
  ℕ, zero, suc, ◌+◌, ◌-◌, ◌*◌, ◌/◌, ◌%◌, ◌^◌, Bool, true, false, ◌&&◌, ◌==◌, ltb, leb, Option, none,
  some, ◌>>=◌, if◌then◌else◌, List, [], ◌∷◌,
}
use choochoo_os.Base.Int.{ℤ, pos, negsuc}
use choochoo_os.User.Track.{TrackNode}
use choochoo_os.User.Track.TrackA.{init_tracka}
use choochoo_os.User.Track.TrackB.{init_trackb}
pub use choochoo_os.User.TrainData.Measured.{train_data_trains}
use choochoo_os.User.TrainData.Measured.{
  train_data_speeds, train_data_short_move_time_increment, train_data_vel_table,
  train_data_stop_dist_table, train_data_stop_time_table, train_data_short_move_dist_table,
}
use choochoo_os.User.TrainData.Zones.{sensors_a, sensors_b, switches_a, switches_b}

-- The global variables. The map of the names of the nodes is not part of it.
pub record TrainData : Type 0 where
  pub traintrack : ℕ → TrackNode
  pub track_type : ℕ

unfoldable pub train_data_init : ℕ → TrainData
train_data_init ch =
    if ch == b'A'
    then record { traintrack = init_tracka; track_type = 0 }
    else record { traintrack = init_trackb; track_type = 1 }

abbrev pub elem {ℓ} : {A : Type ℓ} → List A → ℕ → Option A
elem [] i = none
elem (x ∷ xs) zero = some x
elem (x ∷ xs) (suc i) = elem xs i

-- The array of the track in use.
abbrev pub of_track : TrainData → List ℤ → List ℤ → List ℤ
of_track s a b = if s.track_type == 0 then a else b

unfoldable pub zone_getid_by_sensor_id : TrainData → ℤ → Option ℤ
zone_getid_by_sensor_id s (pos sensor_id) = elem (of_track s sensors_a sensors_b) sensor_id
zone_getid_by_sensor_id s (negsuc _) = none

unfoldable pub zone_getid_by_switch_id : TrainData → ℤ → Option ℤ
zone_getid_by_switch_id s (pos switch_id) =
    if leb 1 switch_id && leb switch_id 18
    then elem (of_track s switches_a switches_b) (switch_id - 1)
    else if leb 153 switch_id && leb switch_id 156
    then elem (of_track s switches_a switches_b) (switch_id - 135)
    else some (negsuc 0)
zone_getid_by_switch_id s (negsuc _) = some (negsuc 0)

unfoldable pub index_from : ℕ → ℕ → List ℕ → Option ℕ
index_from i train [] = none
index_from i train (t ∷ ts) =
    let rest = index_from (suc i) train ts in if t == train then some i else rest

-- The index -1 of a train without data is `none`.
unfoldable pub get_train_index : ℕ → Option ℕ
get_train_index train = index_from 0 train train_data_trains

unfoldable pub get_speed_index : ℕ → Option ℕ
get_speed_index speed = index_from 0 speed train_data_speeds

abbrev pub look_up : List (List ℕ) → ℕ → ℕ → Option ℕ
look_up table train speed =
    get_train_index train >>= λ i. get_speed_index speed >>= λ j. elem table i >>= λ row. elem row j

unfoldable pub train_data_vel : ℕ → ℕ → Option ℕ
unfolding get_train_index get_speed_index
train_data_vel train speed = look_up train_data_vel_table train speed

unfoldable pub train_data_stop_dist : ℕ → ℕ → Option ℕ
unfolding get_train_index get_speed_index
train_data_stop_dist train speed = look_up train_data_stop_dist_table train speed

unfoldable pub train_data_stop_time : ℕ → ℕ → Option ℕ
unfolding get_train_index get_speed_index
train_data_stop_time train speed = look_up train_data_stop_time_table train speed

-- Between two measured distances, the time of the shorter added to its share of the step.
abbrev pub interpolate : ℕ → ℕ → ℕ → ℕ → ℕ
interpolate i prev_dist next_dist dist =
    ((i - 1) * train_data_short_move_time_increment
      + train_data_short_move_time_increment * (dist - prev_dist) / (next_dist - prev_dist))
    % 2 ^ 32

-- The loop from the index `i` on, where `prev` is the entry before it, and what follows the loop, with
-- the last two entries. The distance is a `uint32_t`, and so are the products.
unfoldable pub short_move_from : ℕ → Option ℕ → Option ℕ → ℕ → List ℕ → Option ℕ
short_move_from i (some penultimate) (some last) dist [] = some (
    (train_data_short_move_time_increment * (i - 1)
      + train_data_short_move_time_increment * (dist - last) % 2 ^ 32 / (last - penultimate))
    % 2 ^ 32)
short_move_from i _ _ dist [] = none
short_move_from i before prev dist (d ∷ ds) =
    let rest = short_move_from (suc i) prev (some d) dist ds in
    if d == dist
    then some (i * train_data_short_move_time_increment)
    else if ltb dist d
    then (prev >>= λ prev_dist. some (interpolate i prev_dist d dist))
    else rest

unfoldable pub train_data_short_move_time : ℕ → ℕ → Option ℕ
unfolding get_train_index short_move_from
train_data_short_move_time train dist = get_train_index train >>= λ i.
    elem train_data_short_move_dist_table i >>= λ row. short_move_from 0 none none dist row
