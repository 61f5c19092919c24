-- ===== src/User/Trainsys/Restart.antt =====
-- user/trainsys-server/server.c: a reversal from the request to the restart.
use mathlib.Core.Path.{subst}
use choochoo_os.Base.{
  ℕ, ◌<◌, ◌≡◌, refl, ap, ◌∙◌, sym, ◌≢◌, inl, inr, false, Bool-cases, Option, none, some, ==→eq,
  ==→ne, eq→==, ne→==, ◌==◌, update, update_self, update_ne, List, [], ◌∷◌, lt→ltb, arith, All,
}
use choochoo_os.Base.Int.{pos}
use choochoo_os.User.Trainsys.State.{
  Server, Answers, reply, io_marklin_set_train, create_reverse_task, TrainSystemRequest,
  TrainSystemRequestType, response, system_reverse, system_reverse_restart, slot, speed_of,
  trains_count, without_speed, ◌>>=◌,
}
use choochoo_os.User.Trainsys.Requests.{
  reverse, reverse_restart, reversed_by, handle_type, handle, reversing,
}
use choochoo_os.User.Trainsys.Frame.{Post, Post-bind, Post_at}
use choochoo_os.User.Trainsys.Reversal.{Alone, FirstIn, reversed_by-FirstIn, handle_type-Alone}

abbrev pub request : TrainSystemRequestType → ℕ → TrainSystemRequest
request type t = record {
  type = type;
  train = pos t;
  speed = pos 0;
  light_status = false;
  sensor_hit = pos 0;
}

-- Requests in the order in which the server receives them, with what it is told and their senders.
abbrev pub Message : Type 0
Message = Answers × ℕ × TrainSystemRequest

unfoldable pub handle_all : List Message → Server → Option Server
handle_all [] s = some s
handle_all ((w, from, q) ∷ ms) s = handle w from q s >>= λ r. handle_all ms r.0

-- The task does not restart a train here, and no new task has its number.
abbrev pub Without : ℕ → Message → Type 0
Without tid (w, from, q) = (q.type ≡ system_reverse_restart → from ≢ tid) × (w.created ≢ tid)

handle_all-Alone :
    (tid t : ℕ) (ms : List Message) (s : Server)
    → tid ≢ 0
    → All (Without tid) ms
    → Alone tid t s
    → Post (Alone tid t) (handle_all ms s)
unfolding handle_all
handle_all-Alone tid t [] s z a h = h
handle_all-Alone tid t ((w, from, q) ∷ ms) s z a h =
    Post-bind (Alone tid t) (handle w from q s) _ (λ r e. handle_all-Alone tid t ms r.0 z a.1 (
      Post_at (λ p. Alone tid t p.0) (handle w from q s) r
        (handle_type-Alone tid t z s h q.type w from q a.0.0 a.0.1) e))

restart_own :
    (tid t : ℕ) (s : Server)
    → t < trains_count
    → Alone tid t s
    → reversed_by trains_count 0 tid s ≡ some t
restart_own tid t s l h = by_found (reversed_by trains_count 0 tid s) refl
  where
    by_found :
        (o : Option ℕ)
        → reversed_by trains_count 0 tid s ≡ o
        → reversed_by trains_count 0 tid s ≡ some t
    by_found none e =
        let no : FirstIn trains_count 0 tid s none =
          subst (FirstIn trains_count 0 tid s) e (reversed_by-FirstIn trains_count 0 tid s) in
        absurd (no t (omega arith) (omega arith) h.0)
    by_found (some u) e =
        let found : FirstIn trains_count 0 tid s (some u) =
          subst (FirstIn trains_count 0 tid s) e (reversed_by-FirstIn trains_count 0 tid s) in
        e ∙ ap some (h.1 u (omega (arith, found.1)) found.2)

slot_at : (t : ℕ) → t < trains_count → slot (pos t) ≡ some t
unfolding slot
slot_at t l = rw (lt→ltb t trains_count l)

-- The state in which the train is left to its task.
abbrev pub left_to : ℕ → ℕ → Server → Server
left_to tid t s = record s { reverse_tasks = update s.reverse_tasks t tid }

left_to-Alone :
    (tid t : ℕ) (s : Server)
    → ((u : ℕ) → u < trains_count → s.reverse_tasks u ≢ tid)
    → Alone tid t (left_to tid t s)
left_to-Alone tid t s fresh = (
  update_self s.reverse_tasks t tid,
  λ u l k. elim (Bool-cases (t == u)) [
    | inl e ↦ sym (==→eq t u e)
    | inr e ↦ absurd (fresh u l (sym (update_ne s.reverse_tasks t u tid (==→ne t u e)) ∙ k))
  ],
)

-- A train drives and no task reverses it. SYSTEM_REVERSE stops it and makes a task for it, of a number
-- that no train's task has, which is not 0. Then any requests are handled, the task's
-- SYSTEM_REVERSE_REVERSE among them, but no SYSTEM_REVERSE_RESTART of the task and none that makes
-- another task of its number. When the task then sends SYSTEM_REVERSE_RESTART, the train is given the
-- state that the server has for it by then, and is free to be reversed again.
pub reversal_completes :
    (w w' : Answers) (from t : ℕ) (s : Server) (ms : List Message) (s' : Server)
    → t < trains_count
    → s.reverse_tasks t ≡ 0
    → speed_of (s.train_states t) ≢ 0
    → w.created ≢ 0
    → ((u : ℕ) → u < trains_count → s.reverse_tasks u ≢ w.created)
    → All (Without w.created) ms
    → handle_all ms (left_to w.created t s) ≡ some s'
    → (handle w from (request system_reverse t) s
        ≡ some (
          left_to w.created t s,
          io_marklin_set_train t (without_speed (s.train_states t))
              ∷ create_reverse_task w.created t (speed_of (s.train_states t))
              ∷ reversing from false
              ∷ [],
        ))
      × (handle w' w.created (request system_reverse_restart t) s'
          ≡ some (
            record s' { reverse_tasks = update s'.reverse_tasks t 0 },
            io_marklin_set_train t (s'.train_states t)
                ∷ reply w.created (response system_reverse_restart)
                ∷ [],
          ))
unfolding handle_type reverse reverse_restart
reversal_completes w w' from t s ms s' l free drives nonzero fresh quiet run = (
  rw (slot_at t l, eq→== (s.reverse_tasks t) 0 free, ne→== (speed_of (s.train_states t)) 0 drives),
  rw (restart_own w.created t s' l alone),
)
  where
    alone : Alone w.created t s'
    alone =
        Post_at (Alone w.created t) (handle_all ms (left_to w.created t s)) s'
          (handle_all-Alone w.created t ms (left_to w.created t s) nonzero quiet
            (left_to-Alone w.created t s fresh))
          run
