-- ===== src/User/Trainsys/Frame.antt =====
-- user/trainsys-server/server.c: what the prediction of sensors leaves alone.
use mathlib.Core.Path.{subst}
use choochoo_os.Base.{
  ℕ, suc, ◌≡◌, refl, ◌∙◌, Bool, false, Option, none, some, if-cases, update, List, [], ◌∷◌, ◌++◌,
}
use choochoo_os.Base.Int.{ℤ, pos, negsuc, eqb_ℤ}
use choochoo_os.User.Trainsys.State.{
  Server, Answers, Output, ◌>>=◌, get_train_index, TrainSystemResponse, train_data_trains,
}
use choochoo_os.User.Trainsys.Sensors.{
  walk, turned, missed, train_at, node_of, located, hit_by, predict_both, predict_again,
  switch_change_from, predict_hit, sensor_hit, train_hit, predict_turned, turn_standing,
  turn_stopped,
}
use choochoo_os.User.Trainsys.Requests.{for_train}

-- What holds of a result, if there is one.
abbrev pub Post {ℓ} : {A : Type ℓ} → (A → Type 0) → Option A → Type 0
Post P none = Unit
Post P (some a) = P a

pub Post-bind {ℓ κ} :
    {A : Type ℓ} {B : Type κ} (P : B → Type 0) (o : Option A) (f : A → Option B)
    → ((a : A) → o ≡ some a → Post P (f a))
    → Post P (o >>= f)
Post-bind P none f h = tt
Post-bind P (some a) f h = h a refl

pub Post_at {ℓ} : {A : Type ℓ} (P : A → Type 0) (o : Option A) (a : A) → Post P o → o ≡ some a → P a
Post_at P o a h e = subst (Post P) e h

-- The speeds and the reversing tasks are as before.
abbrev pub Kept : Server → Server × List Output → Type 0
Kept s r = (r.0.train_states ≡ s.train_states) × (r.0.reverse_tasks ≡ s.reverse_tasks)

predict_both-Kept :
    (w : Answers) (b : Bool) (i train : ℕ) (p : ℤ) (s : Server)
    → Post (Kept s) (predict_both w b i train p s)
unfolding predict_both
predict_both-Kept w b i train p s =
    Post-bind (Kept s) (walk w p) _
      (λ n1 _. Post-bind (Kept s) (walk w (pos n1.node)) _ (λ n2 _. (refl, refl)))

predict_turned-Kept :
    (w : Answers) (i train next : ℕ) (s : Server) → Post (Kept s) (predict_turned w i train next s)
unfolding predict_turned
predict_turned-Kept w i train next s =
    Post-bind (Kept s) (walk w (pos next)) _ (λ n _. (refl, refl))

predict_again-Kept :
    (w : Answers) (i train : ℕ) (s : Server) → Post (Kept s) (predict_again w i train s)
unfolding predict_again
predict_again-Kept w i train s =
    if-cases (Post (Kept s)) (eqb_ℤ (s.train_positions i) (negsuc 0)) (λ _. (refl, refl))
      (λ _. Post-bind (Kept s) (turned w (s.train_positions i)) _ (λ rev _.
        if-cases (Post (Kept s)) (eqb_ℤ (w.track rev).num (s.train_next_sensors i 0))
          (λ _. Post-bind (Kept s) (walk w (s.train_next_sensors i 0)) _ (λ n _. (refl, refl)))
          (λ _. predict_both-Kept w false i train (s.train_positions i) s)))

Kept-steps : (s : Server) (r q : Server × List Output) → Kept s r → Kept r.0 q → Kept s q
Kept-steps s r q h k = (k.0 ∙ h.0, k.1 ∙ h.1)

pub switch_change-Kept :
    (i : ℕ) (ts : List ℕ) (w : Answers) (s : Server) → Post (Kept s) (switch_change_from i ts w s)
unfolding switch_change_from
switch_change-Kept i [] w s = (refl, refl)
switch_change-Kept i (t ∷ ts) w s = Post-bind (Kept s) (predict_again w i t s) _ (λ one e.
    Post-bind (Kept s) (switch_change_from (suc i) ts w one.0) _ (λ rest f.
      Kept-steps s one (rest.0, one.1 ++ rest.1)
        (Post_at (Kept s) (predict_again w i t s) one (predict_again-Kept w i t s) e)
        (Post_at (Kept one.0) (switch_change_from (suc i) ts w one.0) rest
          (switch_change-Kept (suc i) ts w one.0) f)))

predict_hit-Kept :
    (w : Answers) (from i train cur : ℕ) (r : TrainSystemResponse) (s : Server)
    → Post (Kept s) (predict_hit w from i train cur r s)
unfolding predict_hit
predict_hit-Kept w from i train cur r s = Post-bind (Kept s) (walk w (pos cur)) _ (λ n1 _.
    if-cases (Post (Kept s)) n1.is_unknown (λ _. (refl, refl))
      (λ _. Post-bind (Kept s) (walk w (pos n1.node)) _ (λ n2 _. (refl, refl))))

pub turn_standing-Kept :
    (w : Answers) (i train : ℕ) (s : Server) → Post (Kept s) (turn_standing w i train s)
unfolding turn_standing
turn_standing-Kept w i train s =
    if-cases (Post (Kept s)) (eqb_ℤ (s.train_positions i) (negsuc 0)) (λ _. (refl, refl))
      (λ _.
        Post-bind (Kept s) (turned w (s.train_positions i)) _
          (λ n _. predict_turned-Kept w i train n s))

pub turn_stopped-Kept :
    (w : Answers) (i train : ℕ) (s : Server) → Post (Kept s) (turn_stopped w i train s)
unfolding turn_stopped
turn_stopped-Kept w i train s =
    if-cases (Post (Kept s)) (eqb_ℤ (s.train_positions i) (negsuc 0)) (λ _. (refl, refl))
      (λ _. Post-bind (Kept s) (turned w (s.train_positions i)) _ (λ n _.
        if-cases (Post (Kept s)) (eqb_ℤ (s.train_next_sensors i 0) (pos n))
          (λ _. predict_both-Kept w w.uninitialised i train (s.train_positions i) s)
          (λ _. predict_turned-Kept w i train n s)))

pub for_train-Kept :
    (train : ℕ) (f : ℕ → ℕ → Server → Option (Server × List Output)) (s : Server)
    → ((i : ℕ) → Post (Kept s) (f i train s))
    → Post (Kept s) (for_train train f s)
for_train-Kept train f s h = by_index (get_train_index train)
  where
    by_index :
        (o : Option ℕ) → Post (Kept s) (elim o [ none ↦ some (s, []) | some i ↦ f i train s ])
    by_index none = (refl, refl)
    by_index (some i) = h i

located-Kept :
    (w : Answers) (from i : ℕ) (r : TrainSystemResponse) (s : Server) (o : Option ℕ)
    → Post (Kept s) (located w from i r s o)
located-Kept w from i r s none = (refl, refl)
located-Kept w from i r s (some cur) =
    predict_hit-Kept w from i (train_at i train_data_trains) cur r s

hit_by-Kept :
    (w : Answers) (from : ℕ) (sensor : ℤ) (s : Server) (o : Option ℕ)
    → Post (Kept s) (hit_by w from sensor s o)
hit_by-Kept w from sensor s none = (refl, refl)
hit_by-Kept w from sensor s (some i) =
    located-Kept w from i (record missed { prev_sensor_id = s.train_positions i })
      (record s { train_positions = update s.train_positions i sensor }) (node_of w sensor)

pub sensor_hit-Kept :
    (w : Answers) (from : ℕ) (sensor : ℤ) (s : Server) → Post (Kept s) (sensor_hit w from sensor s)
unfolding sensor_hit
sensor_hit-Kept w from sensor s = hit_by-Kept w from sensor s (train_hit sensor s)

pub Post-map {ℓ} :
    {A : Type ℓ} (P Q : A → Type 0) (o : Option A) → ((a : A) → P a → Q a) → Post P o → Post Q o
Post-map P Q none h p = tt
Post-map P Q (some a) h p = h a p
