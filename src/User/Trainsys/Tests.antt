-- ===== src/User/Trainsys/Tests.antt =====
-- Runs of the train system server on track A, all turnouts straight.
use choochoo_os.Base.{◌≡◌, refl, ◌⊎◌, ℕ, true, false, some, update, List, [], ◌∷◌, arith}
use choochoo_os.Base.Int.{pos, negsuc}
use choochoo_os.User.Switch.{switch_mode_s}
use choochoo_os.User.Track.Post.{post_track, for_switches, for_nodes}
use choochoo_os.User.Track.TrackA.{init_tracka}
use choochoo_os.User.NextSensor.{find_next_sensor}
use choochoo_os.User.Trainsys.State.{
  Server, Answers, Output, reply, io_marklin_set_train, render_predict_next_sensor,
  create_reverse_task, TrainSystemRequest, response, system_set_lights, system_set_speed,
  system_reverse, system_reverse_reverse, system_reverse_restart, slot, with_speed, with_lights,
  or_bits, set_state, set_next, get_train_index, index_from,
}
use choochoo_os.User.Trainsys.Sensors.{sensor_hit, missed, train_hit, hit_from, predict_hit, walk}
use choochoo_os.User.Trainsys.Requests.{
  handle, handle_type, set_speed, set_lights, reverse_reverse, reversed_by, reversing,
}
use choochoo_os.User.Trainsys.Speeds.{handle-byte}
use choochoo_os.User.Trainsys.Hits.{Unexpected, Chosen, Moves, sensor_hit-Moves}
use choochoo_os.User.Trainsys.Restart.{request, Message, handle_all, left_to, reversal_completes}

-- Train 2 waits for sensor 4 and then 38; train 24 drives at speed 10 with its lights on.
abbrev server : Server
server = record {
  train_states = update (λ _. 0) 24 26;
  train_positions = update (λ _. negsuc 0) 0 (pos 24);
  reversed = λ _. false;
  reverse_tasks = λ _. 0;
  train_next_sensors = update (λ _ _. negsuc 0) 0 (update (λ _. pos 38) 0 (pos 4));
}

abbrev answers : Answers
answers = record {
  track = init_tracka;
  modes = λ _. switch_mode_s;
  node_index = λ n. some n;
  created = 40;
  uninitialised = false;
}

abbrev lights_off : TrainSystemRequest
lights_off = record {
  type = system_set_lights;
  train = pos 24;
  speed = pos 0;
  light_status = false;
  sensor_hit = pos 0;
}

abbrev dark : Server × List Output
dark = (
  set_state 24 10 server,
  io_marklin_set_train 24 10
      ∷ reply 6 (record (response system_set_speed) { train_state = 10; train = pos 24 })
      ∷ [],
)

dark-run : handle answers 6 lights_off server ≡ some dark
unfolding handle_type slot set_lights with_lights
dark-run = refl

handle-byte_example : dark.0.train_states 24 ≡ 10
unfolding slot
handle-byte_example =
    handle-byte answers 6 lights_off 24 10 true server dark (omega arith) (omega arith) refl
      dark-run

abbrev moved : Server × List Output
moved = (
  set_next 0 (pos 38) (pos 34)
      (record server { train_positions = update server.train_positions 0 (pos 4) }),
  render_predict_next_sensor 2 (pos 38)
      ∷ reply 6 (record missed {
        prev_sensor_id = pos 24;
        train = pos 2;
        next_sensor_id = pos 38;
        dist_to_next = pos 359;
      })
      ∷ [],
)

moved-run : sensor_hit answers 6 (pos 4) server ≡ some moved
unfolding sensor_hit train_hit hit_from predict_hit walk find_next_sensor post_track for_switches
    for_nodes
moved-run = refl

sensor_hit-Moves_example :
    (Unexpected (pos 4) server × (moved ≡ (server, reply 6 missed ∷ [])))
    ⊎ ((i : ℕ) × Chosen (pos 4) server i × Moves (pos 4) server i moved.0)
sensor_hit-Moves_example = sensor_hit-Moves answers 6 (pos 4) server moved moved-run

-- While train 24 is stopped to be reversed, another task asks for speed 12.
abbrev faster : TrainSystemRequest
faster = record (request system_set_speed 24) { speed = pos 12 }

abbrev between : List Message
between =
    (record answers { created = 41 }, 9, faster)
    ∷ (record answers { created = 41 }, 40, request system_reverse_reverse 24)
    ∷ []

abbrev turned : Server
turned = record (left_to 40 24 server) {
  train_states = update server.train_states 24 28;
  reversed = update (λ _. false) 24 true;
}

between-run : handle_all between (left_to 40 24 server) ≡ some turned
unfolding handle_all handle_type slot set_speed with_speed or_bits reversed_by reverse_reverse
    get_train_index index_from
between-run = refl

reversal_completes_example :
    (handle answers 6 (request system_reverse 24) server
      ≡ some (
        left_to 40 24 server,
        io_marklin_set_train 24 16 ∷ create_reverse_task 40 24 10 ∷ reversing 6 false ∷ [],
      ))
    × (handle answers 40 (request system_reverse_restart 24) turned
        ≡ some (
          record turned { reverse_tasks = update turned.reverse_tasks 24 0 },
          io_marklin_set_train 24 28 ∷ reply 40 (response system_reverse_restart) ∷ [],
        ))
reversal_completes_example =
    reversal_completes answers answers 6 24 server between turned (omega arith) refl
      (λ e. absurd (ground arith)) (λ e. absurd (ground arith)) (λ u l e. absurd (ground arith))
      (
        (λ e f. absurd (ground arith), λ e. absurd (ground arith)),
        ((λ e f. absurd (ground arith), λ e. absurd (ground arith)), tt),
      )
      between-run
