-- ===== src/User/Trainsys/Reversal.antt =====
-- user/trainsys-server/server.c: a train that is reversed while it drives gets its speed back.
use mathlib.Core.Path.{subst}
use choochoo_os.Base.{
  ℕ, zero, suc, ◌+◌, ◌<◌, ◌≤◌, ◌≡◌, refl, ap, ◌∙◌, sym, ◌≢◌, inl, inr, false, not, Bool-cases,
  Option, none, some, ==→eq, ==→ne, ◌==◌, if-cases, update, update_self, update_ne, List, arith,
}
use choochoo_os.User.Trainsys.State.{
  Server, Answers, Output, TrainSystemRequest, TrainSystemRequestType, system_set_speed,
  system_set_lights, system_get_train, system_sensor_hit, system_switch_change, system_reverse,
  system_reverse_reverse, system_reverse_restart, system_get_train_position, system_stop_train,
  other, slot, speed_of, get_train_index, train_data_trains, trains_count,
}
use choochoo_os.User.Trainsys.Requests.{
  set_speed, stop_train, set_lights, reverse, reverse_reverse, reverse_restart, reversed_by,
  get_train_position, handle_type, for_train,
}
use choochoo_os.User.Trainsys.Sensors.{turn_standing, turn_stopped, switch_change_from, sensor_hit}
use choochoo_os.User.Trainsys.Frame.{
  Post, Post-bind, Post-map, Post_at, Kept, switch_change-Kept, sensor_hit-Kept, turn_standing-Kept,
  turn_stopped-Kept, for_train-Kept,
}

-- The task `tid` reverses the train `t` and no other.
abbrev pub Alone : ℕ → ℕ → Server → Type 0
Alone tid t s =
    (s.reverse_tasks t ≡ tid) × ((u : ℕ) → u < trains_count → s.reverse_tasks u ≡ tid → u ≡ t)

-- What the loop for the task finds.
abbrev pub FirstIn : ℕ → ℕ → ℕ → Server → Option ℕ → Type 0
FirstIn n i tid s none = (u : ℕ) → i ≤ u → u < i + n → s.reverse_tasks u ≢ tid
FirstIn n i tid s (some u) = (i ≤ u) × (u < i + n) × (s.reverse_tasks u ≡ tid)

pub reversed_by-FirstIn : (n i tid : ℕ) (s : Server) → FirstIn n i tid s (reversed_by n i tid s)
unfolding reversed_by
reversed_by-FirstIn zero i tid s = λ u l h. absurd (omega arith)
reversed_by-FirstIn (suc n) i tid s =
    if-cases (FirstIn (suc n) i tid s) (s.reverse_tasks i == tid)
      (λ e. (omega arith, omega arith, ==→eq (s.reverse_tasks i) tid e))
      (λ e.
        later (==→ne (s.reverse_tasks i) tid e) (reversed_by n (suc i) tid s)
          (reversed_by-FirstIn n (suc i) tid s))
  where
    later :
        s.reverse_tasks i ≢ tid
        → (o : Option ℕ) → FirstIn n (suc i) tid s o
        → FirstIn (suc n) i tid s o
    later k none h = λ u a b. elim (Bool-cases (i == u)) [
      | inl e ↦ λ f. k (ap s.reverse_tasks (==→eq i u e) ∙ f)
      | inr e ↦ h u (ground (arith, ==→ne i u e)) (omega arith)
    ]
    later k (some u) h = (omega (arith, h.0), omega (arith, h.1), h.2)

Alone-same :
    (tid t : ℕ) (s s' : Server)
    → s'.reverse_tasks ≡ s.reverse_tasks
    → Alone tid t s
    → Alone tid t s'
Alone-same tid t s s' e h = (ap (λ f. f t) e ∙ h.0, λ u l k. h.1 u l (sym (ap (λ f. f u) e) ∙ k))

-- Another train is given another task, or none.
Alone-other :
    (tid t u v : ℕ) (s : Server)
    → u ≢ t
    → v ≢ tid
    → Alone tid t s
    → Alone tid t (record s { reverse_tasks = update s.reverse_tasks u v })
Alone-other tid t u v s a b h = (
  update_ne s.reverse_tasks u t v a ∙ h.0,
  λ x l k. elim (Bool-cases (u == x)) [
    | inl e ↦ absurd (
        b (
          sym (update_self s.reverse_tasks u v)
          ∙ ap (update s.reverse_tasks u v) (==→eq u x e)
          ∙ k))
    | inr e ↦ h.1 x l (sym (update_ne s.reverse_tasks u x v (==→ne u x e)) ∙ k)
  ],
)

module _ (tid t : ℕ) (some_tid : tid ≢ 0) (s : Server) (h : Alone tid t s) where
  abbrev Still : Server × List Output → Type 0
  Still r = Alone tid t r.0

  kept : (r : Server × List Output) → Kept s r → Still r
  kept r k = Alone-same tid t s r.0 k.1 h

  reverse-Alone : (w : Answers) (from u : ℕ) → w.created ≢ tid → Post Still (reverse w from u s)
  unfolding reverse
  reverse-Alone w from u n =
      if-cases (Post Still) (not (s.reverse_tasks u == 0)) (λ _. h)
        (λ e.
          if-cases (Post Still) (speed_of (s.train_states u) == 0)
            (λ _. Post-bind Still (for_train u (turn_standing w) s) _ (λ r f. kept r (
              Post_at (Kept s) (for_train u (turn_standing w) s) r
                (for_train-Kept u (turn_standing w) s (λ i. turn_standing-Kept w i u s)) f)))
            (λ _.
              Alone-other tid t u w.created s
                (λ g. some_tid (sym h.0 ∙ ap s.reverse_tasks (sym g) ∙ free u e)) n h))
    where
      free : (x : ℕ) → not (s.reverse_tasks x == 0) ≡ false → s.reverse_tasks x ≡ 0
      free x e = ground arith

  reverse_reverse-Alone : (w : Answers) (from u : ℕ) → Post Still (reverse_reverse w from u s)
  unfolding reverse_reverse
  reverse_reverse-Alone w from u =
      let s' = record s { reversed = update s.reversed u (not (s.reversed u)) } in
      Post-bind Still (for_train u (turn_stopped w) s') _ (λ r f.
        Alone-same tid t s r.0
          (Post_at (Kept s') (for_train u (turn_stopped w) s') r
            (for_train-Kept u (turn_stopped w) s' (λ i. turn_stopped-Kept w i u s')) f).1
          h)

  pub handle_type-Alone :
      (type : TrainSystemRequestType) (w : Answers) (from : ℕ) (q : TrainSystemRequest)
      → (type ≡ system_reverse_restart → from ≢ tid)
      → w.created ≢ tid
      → Post Still (handle_type type w from q s)
  unfolding handle_type set_speed set_lights stop_train reverse_restart get_train_position
  handle_type-Alone system_set_speed w from q a b = Post-bind Still (slot q.train) _ (λ u _. h)
  handle_type-Alone system_set_lights w from q a b = Post-bind Still (slot q.train) _ (λ u _. h)
  handle_type-Alone system_stop_train w from q a b = Post-bind Still (slot q.train) _ (λ u _. h)
  handle_type-Alone system_get_train w from q a b = Post-bind Still (slot q.train) _ (λ u _. h)
  handle_type-Alone system_sensor_hit w from q a b =
      Post-map (Kept s) Still (sensor_hit w from q.sensor_hit s) kept
        (sensor_hit-Kept w from q.sensor_hit s)
  handle_type-Alone system_switch_change w from q a b =
      Post-bind Still (switch_change_from 0 train_data_trains w s) _ (λ r e. kept r (
        Post_at (Kept s) (switch_change_from 0 train_data_trains w s) r
          (switch_change-Kept 0 train_data_trains w s) e))
  handle_type-Alone system_reverse w from q a b =
      Post-bind Still (slot q.train) _ (λ u _. reverse-Alone w from u b)
  handle_type-Alone system_reverse_reverse w from q a b =
      Post-bind Still (reversed_by trains_count 0 from s) _ (λ u _. reverse_reverse-Alone w from u)
  handle_type-Alone system_reverse_restart w from q a b =
      Post-bind Still (reversed_by trains_count 0 from s) _ (λ u e.
        let found : FirstIn trains_count 0 from s (some u) =
          subst (FirstIn trains_count 0 from s) e (reversed_by-FirstIn trains_count 0 from s) in
        Alone-other tid t u 0 s (λ g. a refl (sym found.2 ∙ ap s.reverse_tasks g ∙ h.0))
          (λ z. some_tid (sym z)) h)
  handle_type-Alone system_get_train_position w from q a b =
      Post-bind Still (slot q.train) _ (λ u _. Post-bind Still (get_train_index u) _ (λ i _. h))
  handle_type-Alone other w from q a b = h
