-- ===== src/User/Trainsys/Speeds.antt =====
-- user/trainsys-server/server.c: the speeds and lights of the trains.
use choochoo_os.Base.{
  ℕ, ◌<◌, ◌≡◌, refl, ap, ◌∙◌, sym, inl, inr, Bool, not, Bool-cases, Option, none, some, ==→eq, ◌==◌,
  if◌then◌else◌, if-cases, update, List, [], arith,
}
use choochoo_os.Base.Int.{to_u32}
use choochoo_os.User.Trainsys.State.{
  Server, Answers, Output, TrainSystemRequest, TrainSystemRequestType, system_set_speed,
  system_set_lights, system_get_train, system_sensor_hit, system_switch_change, system_reverse,
  system_reverse_reverse, system_reverse_restart, system_get_train_position, system_stop_train,
  other, slot, speed_of, get_train_index, train_data_trains, trains_count, with_speed, with_lights,
  without_speed,
}
use choochoo_os.User.Trainsys.Requests.{
  set_speed, stop_train, set_lights, reverse, reverse_reverse, reverse_restart, reversed_by,
  get_train_position, handle_type, handle, for_train,
}
use choochoo_os.User.Trainsys.Sensors.{turn_standing, turn_stopped, switch_change_from, sensor_hit}
use choochoo_os.User.Trainsys.Bits.{
  byte, with_speed-byte, with_lights-byte, without_speed-byte, speed_of-byte, lights_of-byte,
}
use choochoo_os.User.Trainsys.Frame.{
  Post, Post-bind, Post_at, Post-map, Kept, switch_change-Kept, sensor_hit-Kept, turn_standing-Kept,
  turn_stopped-Kept, for_train-Kept,
}

-- The speed and the lights that a request sets, of the train that it names.
abbrev speed_asked : TrainSystemRequestType → TrainSystemRequest → ℕ → ℕ
speed_asked system_set_speed q speed = to_u32 q.speed
speed_asked system_stop_train q speed = 0
speed_asked _ q speed = speed

abbrev lights_asked : TrainSystemRequestType → TrainSystemRequest → Bool → Bool
lights_asked system_set_lights q on = q.light_status
lights_asked _ q on = on

-- The state byte of the train `t` after a request to the train `o`.
abbrev asked : TrainSystemRequestType → TrainSystemRequest → ℕ → ℕ → Bool → Option ℕ → ℕ
asked type q t speed on none = byte speed on
asked type q t speed on (some u) =
    if u == t then byte (speed_asked type q speed) (lights_asked type q on) else byte speed on

abbrev pub byte_after : TrainSystemRequest → ℕ → ℕ → Bool → ℕ
byte_after q t speed on = asked q.type q t speed on (slot q.train)

reverse-Kept :
    (w : Answers) (from t : ℕ) (s : Server)
    → Post (λ r. r.0.train_states ≡ s.train_states) (reverse w from t s)
unfolding reverse
reverse-Kept w from t s =
    if-cases (Post (λ r. r.0.train_states ≡ s.train_states)) (not (s.reverse_tasks t == 0))
      (λ _. refl)
      (λ _.
        if-cases (Post (λ r. r.0.train_states ≡ s.train_states)) (speed_of (s.train_states t) == 0)
          (λ _.
            Post-bind (λ r. r.0.train_states ≡ s.train_states) (for_train t (turn_standing w) s) _
              (λ r e.
                (Post_at (Kept s) (for_train t (turn_standing w) s) r
                  (for_train-Kept t (turn_standing w) s (λ i. turn_standing-Kept w i t s)) e).0))
          (λ _. refl))

reverse_reverse-Kept :
    (w : Answers) (from t : ℕ) (s : Server)
    → Post (λ r. r.0.train_states ≡ s.train_states) (reverse_reverse w from t s)
unfolding reverse_reverse
reverse_reverse-Kept w from t s =
    let s' = record s { reversed = update s.reversed t (not (s.reversed t)) } in
    Post-bind (λ r. r.0.train_states ≡ s.train_states) (for_train t (turn_stopped w) s') _
      (λ r e.
        (Post_at (Kept s') (for_train t (turn_stopped w) s') r
          (for_train-Kept t (turn_stopped w) s' (λ i. turn_stopped-Kept w i t s')) e).0)

module _ (q : TrainSystemRequest) (t speed : ℕ) (on : Bool) (small : speed < 16) (s : Server)
    (h : s.train_states t ≡ byte speed on) where
  abbrev Becomes : TrainSystemRequestType → Server × List Output → Type 0
  Becomes type r = r.0.train_states t ≡ asked type q t speed on (slot q.train)

  -- A request that sets neither leaves the byte.
  unasked :
      (type : TrainSystemRequestType) (o : Option ℕ)
      → speed_asked type q speed ≡ speed
      → lights_asked type q on ≡ on
      → asked type q t speed on o ≡ byte speed on
  unasked type none a b = refl
  unasked type (some u) a b =
      if-cases (λ v. v ≡ byte speed on) (u == t)
        (λ _. ap (λ x. byte x (lights_asked type q on)) a ∙ ap (byte speed) b) (λ _. refl)

  leaves :
      (type : TrainSystemRequestType) (r : Server × List Output)
      → speed_asked type q speed ≡ speed
      → lights_asked type q on ≡ on
      → r.0.train_states ≡ s.train_states
      → Becomes type r
  leaves type r a b k = ap (λ f. f t) k ∙ h ∙ sym (unasked type (slot q.train) a b)

  -- A request that writes the byte of the train `u`.
  writes :
      (type : TrainSystemRequestType) (u v : ℕ)
      → slot q.train ≡ some u
      → (u ≡ t → v ≡ byte (speed_asked type q speed) (lights_asked type q on))
      → update s.train_states u v t ≡ asked type q t speed on (slot q.train)
  writes type u v e k = by_train ∙ ap (asked type q t speed on) (sym e)
    where
      by_train : update s.train_states u v t ≡ asked type q t speed on (some u)
      by_train = elim (Bool-cases (u == t)) [ inl a ↦ rw a (k (==→eq u t a)) | inr a ↦ rw a h ]

  now : (u : ℕ) → u ≡ t → s.train_states u ≡ byte speed on
  now u e = ap s.train_states e ∙ h

  byte_small : byte speed on < 32
  byte_small = ground arith

  handle_type-Becomes :
      (type : TrainSystemRequestType) (w : Answers) (from : ℕ)
      → to_u32 q.speed < 16
      → Post (Becomes type) (handle_type type w from q s)
  unfolding handle_type set_speed set_lights stop_train reverse_restart get_train_position
  handle_type-Becomes system_set_speed w from l =
      Post-bind (Becomes system_set_speed) (slot q.train) _ (λ u e.
        writes system_set_speed u (with_speed (s.train_states u) (to_u32 q.speed)) e (λ g.
          ap (λ b. with_speed b (to_u32 q.speed)) (now u g)
          ∙ with_speed-byte (byte speed on) (to_u32 q.speed) byte_small l
          ∙ ap (byte (to_u32 q.speed)) (lights_of-byte speed on small)))
  handle_type-Becomes system_set_lights w from l =
      Post-bind (Becomes system_set_lights) (slot q.train) _ (λ u e.
        writes system_set_lights u (with_lights q.light_status (s.train_states u)) e (λ g.
          ap (with_lights q.light_status) (now u g)
          ∙ with_lights-byte q.light_status (byte speed on) byte_small
          ∙ ap (λ x. byte x q.light_status) (speed_of-byte speed on small)))
  handle_type-Becomes system_stop_train w from l =
      Post-bind (Becomes system_stop_train) (slot q.train) _ (λ u e.
        writes system_stop_train u (without_speed (s.train_states u)) e (λ g.
          ap without_speed (now u g)
          ∙ without_speed-byte (byte speed on) byte_small
          ∙ ap (byte 0) (lights_of-byte speed on small)))
  handle_type-Becomes system_get_train w from l =
      Post-bind (Becomes system_get_train) (slot q.train) _
        (λ u e. leaves system_get_train (s, []) refl refl refl)
  handle_type-Becomes system_sensor_hit w from l =
      Post-map (Kept s) (Becomes system_sensor_hit) (sensor_hit w from q.sensor_hit s)
        (λ r k. leaves system_sensor_hit r refl refl k.0) (sensor_hit-Kept w from q.sensor_hit s)
  handle_type-Becomes system_switch_change w from l =
      Post-bind (Becomes system_switch_change) (switch_change_from 0 train_data_trains w s) _
        (λ r e.
          leaves system_switch_change r refl refl
            (Post_at (Kept s) (switch_change_from 0 train_data_trains w s) r
              (switch_change-Kept 0 train_data_trains w s) e).0)
  handle_type-Becomes system_reverse w from l =
      Post-bind (Becomes system_reverse) (slot q.train) _ (λ u e.
        Post-map (λ r. r.0.train_states ≡ s.train_states) (Becomes system_reverse)
          (reverse w from u s) (λ r k. leaves system_reverse r refl refl k)
          (reverse-Kept w from u s))
  handle_type-Becomes system_reverse_reverse w from l =
      Post-bind (Becomes system_reverse_reverse) (reversed_by trains_count 0 from s) _ (λ u e.
        Post-map (λ r. r.0.train_states ≡ s.train_states) (Becomes system_reverse_reverse)
          (reverse_reverse w from u s) (λ r k. leaves system_reverse_reverse r refl refl k)
          (reverse_reverse-Kept w from u s))
  handle_type-Becomes system_reverse_restart w from l =
      Post-bind (Becomes system_reverse_restart) (reversed_by trains_count 0 from s) _
        (λ u e. leaves system_reverse_restart (reverse_restart from u s) refl refl refl)
  handle_type-Becomes system_get_train_position w from l =
      Post-bind (Becomes system_get_train_position) (slot q.train) _ (λ u e.
        Post-bind (Becomes system_get_train_position) (get_train_index u) _
          (λ i _. leaves system_get_train_position (s, []) refl refl refl))
  handle_type-Becomes other w from l = leaves other (s, []) refl refl refl

-- Let the state byte of a train be a speed below 16 and its lights, and a request ask for a speed below
-- 16. After the request, if it is handled, the byte is the speed and the lights that the request sets,
-- if it is to set the speed or the lights of this train or to stop it: setting one keeps the other, and
-- a stop is the speed 0. Every other request leaves the byte as it is.
pub handle-byte :
    (w : Answers) (from : ℕ) (q : TrainSystemRequest) (t speed : ℕ) (on : Bool) (s : Server)
    (r : Server × List Output)
    → speed < 16
    → to_u32 q.speed < 16
    → s.train_states t ≡ byte speed on
    → handle w from q s ≡ some r
    → r.0.train_states t ≡ byte_after q t speed on
handle-byte w from q t speed on s r small l h e =
    Post_at (Becomes q t speed on small s h q.type) (handle w from q s) r
      (handle_type-Becomes q t speed on small s h q.type w from l) e
