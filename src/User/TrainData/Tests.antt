-- ===== src/User/TrainData/Tests.antt =====
-- The tables at some trains.
use choochoo_os.Base.{◌≡◌, refl, none, some, arith}
use choochoo_os.User.TrainData.{
  train_data_init, train_data_vel, train_data_stop_dist, train_data_stop_time,
  train_data_short_move_time, short_move_from, get_train_index, get_speed_index, index_from,
}
use choochoo_os.User.TrainData.Agree.{Agrees, zones_agree}
use choochoo_os.User.TrainData.ShortMove.{train_data_short_move_time-Rises}
use choochoo_os.User.TrainData.ShortMove.Rising.{Rises}

stop_dist_58 : train_data_stop_dist 58 14 ≡ some 1245
unfolding train_data_stop_dist get_train_index get_speed_index index_from
stop_dist_58 = refl

vel_3 : train_data_vel 3 14 ≡ none
unfolding train_data_vel get_train_index get_speed_index index_from
vel_3 = refl

stop_time_2 : train_data_stop_time 2 14 ≡ some 0
unfolding train_data_stop_time get_train_index get_speed_index index_from
stop_time_2 = refl

-- Half way between two entries.
short_move_47 : train_data_short_move_time 47 1056 ≡ some 3625
unfolding train_data_short_move_time short_move_from get_train_index index_from
short_move_47 = refl

zones_agree_example : Agrees (train_data_init 66)
zones_agree_example = zones_agree 66

train_data_short_move_time-Rises_example :
    Rises (train_data_short_move_time 58 500) (train_data_short_move_time 58 2000)
unfolding get_train_index index_from
train_data_short_move_time-Rises_example =
    train_data_short_move_time-Rises 58 4 500 2000 index_58 (omega arith) (omega arith)
  where
    index_58 : get_train_index 58 ≡ some 4
    index_58 = refl
