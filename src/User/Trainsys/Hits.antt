-- ===== src/User/Trainsys/Hits.antt =====
-- user/trainsys-server/server.c: which train is taken to have hit a sensor.
use choochoo_os.Base.{
  ℕ, zero, suc, ◌+◌, ◌<◌, ◌≤◌, ◌≡◌, refl, ap, ◌∙◌, ◌≢◌, ◌⊎◌, inl, inr, true, Bool-cases, Option,
  none, some, ==→eq, ==→ne, ◌==◌, if-cases, update, update_ne, not_both, List, [], ◌∷◌, arith,
}
use choochoo_os.Base.Int.{ℤ, pos, eqb_ℤ}
use choochoo_os.User.Trainsys.State.{
  Server, Answers, Output, reply, TrainSystemResponse, train_data_trains,
}
use choochoo_os.User.Trainsys.Sensors.{
  walk, missed, train_at, node_of, located, hit_by, hit_from, train_hit, predict_hit, sensor_hit,
}
use choochoo_os.User.Trainsys.Frame.{Post, Post-bind, Post_at, Post-map}

abbrev pub Expects : Server → ℕ → ℕ → ℤ → Type 0
Expects s i depth sensor = eqb_ℤ (s.train_next_sensors i depth) sensor ≡ true

-- The loop over `n` trains from `j` on finds the first that expects the sensor, if one does.
abbrev pub FirstIn : ℕ → ℕ → ℕ → ℤ → Server → Option ℕ → Type 0
FirstIn n j depth sensor s none = (i : ℕ) → j ≤ i → i < j + n → ¬ Expects s i depth sensor
FirstIn n j depth sensor s (some i) =
    (j ≤ i)
    × (i < j + n)
    × Expects s i depth sensor
    × ((k : ℕ) → j ≤ k → k < i → ¬ Expects s k depth sensor)

hit_from-FirstIn :
    (n j depth : ℕ) (sensor : ℤ) (s : Server)
    → FirstIn n j depth sensor s (hit_from n j depth sensor s)
unfolding hit_from
hit_from-FirstIn zero j depth sensor s = λ i a b h. absurd (omega arith)
hit_from-FirstIn (suc n) j depth sensor s =
    if-cases (FirstIn (suc n) j depth sensor s) (eqb_ℤ (s.train_next_sensors j depth) sensor)
      (λ e. (omega arith, omega arith, e, λ k a b h. absurd (omega arith)))
      (λ e.
        later (λ h. not_both (eqb_ℤ (s.train_next_sensors j depth) sensor) h e)
          (hit_from n (suc j) depth sensor s) (hit_from-FirstIn n (suc j) depth sensor s))
  where
    skip :
        ¬ Expects s j depth sensor
        → (k : ℕ) → j ≤ k
        → (suc j ≤ k → ¬ Expects s k depth sensor)
        → ¬ Expects s k depth sensor
    skip miss k a h e = elim (Bool-cases (j == k)) [
      | inl g ↦ miss (ap (λ x. eqb_ℤ (s.train_next_sensors x depth) sensor) (==→eq j k g) ∙ e)
      | inr g ↦ h (ground (arith, ==→ne j k g)) e
    ]

    later :
        ¬ Expects s j depth sensor
        → (o : Option ℕ) → FirstIn n (suc j) depth sensor s o
        → FirstIn (suc n) j depth sensor s o
    later miss none h = λ i a b. skip miss i a (λ c. h i c (omega arith))
    later miss (some i) h =
        (omega (arith, h.0), omega (arith, h.1), h.2, λ k a b. skip miss k a (λ c. h.3 k c b))

-- Who is taken for a sensor: the first train whose next sensor it is, else the first for which it is
-- the one after the next.
abbrev pub Chosen : ℤ → Server → ℕ → Type 0
Chosen sensor s i =
    FirstIn 6 0 0 sensor s (some i)
    ⊎ (FirstIn 6 0 0 sensor s none × FirstIn 6 0 1 sensor s (some i))

-- No train expects the sensor.
abbrev pub Unexpected : ℤ → Server → Type 0
Unexpected sensor s = FirstIn 6 0 0 sensor s none × FirstIn 6 0 1 sensor s none

-- The train `i` is at the sensor, and the others are where they were and hit what they were to hit.
abbrev pub Moves : ℤ → Server → ℕ → Server → Type 0
Moves sensor s i s' =
    (s'.train_positions ≡ update s.train_positions i sensor)
    × ((k : ℕ) → i ≢ k → s'.train_next_sensors k ≡ s.train_next_sensors k)

predict_hit-Moves :
    (w : Answers) (from i train cur : ℕ) (m : TrainSystemResponse) (s : Server)
    → Post
        (λ r.
          (r.0.train_positions ≡ s.train_positions)
          × ((k : ℕ) → i ≢ k → r.0.train_next_sensors k ≡ s.train_next_sensors k))
        (predict_hit w from i train cur m s)
unfolding predict_hit
predict_hit-Moves w from i train cur m s = Post-bind Stays (walk w (pos cur)) _ (λ n1 _.
    if-cases (Post Stays) n1.is_unknown (λ _. (refl, others _))
      (λ _. Post-bind Stays (walk w (pos n1.node)) _ (λ n2 _. (refl, others _))))
  where
    Stays : Server × List Output → Type 0
    Stays r =
        (r.0.train_positions ≡ s.train_positions)
        × ((k : ℕ) → i ≢ k → r.0.train_next_sensors k ≡ s.train_next_sensors k)

    others :
        (v : ℕ → ℤ) (k : ℕ) → i ≢ k → update s.train_next_sensors i v k ≡ s.train_next_sensors k
    others v k e = update_ne s.train_next_sensors i k v e

abbrev Found : ℤ → Server → Option ℕ → Type 0
Found sensor s none = Unexpected sensor s
Found sensor s (some i) = Chosen sensor s i

train_hit-Found : (sensor : ℤ) (s : Server) → Found sensor s (train_hit sensor s)
unfolding train_hit
train_hit-Found sensor s = by_depth (hit_from 6 0 0 sensor s) (hit_from-FirstIn 6 0 0 sensor s)
  where
    behind :
        (o : Option ℕ) → FirstIn 6 0 0 sensor s none → FirstIn 6 0 1 sensor s o → Found sensor s o
    behind none h k = (h, k)
    behind (some i) h k = inr (h, k)

    by_depth :
        (o : Option ℕ)
        → FirstIn 6 0 0 sensor s o
        → Found sensor s (elim o [ some j ↦ some j | none ↦ hit_from 6 0 1 sensor s ])
    by_depth none h = behind (hit_from 6 0 1 sensor s) h (hit_from-FirstIn 6 0 1 sensor s)
    by_depth (some i) h = inl h

hit_by-Moves :
    (w : Answers) (from : ℕ) (sensor : ℤ) (s : Server) (o : Option ℕ)
    → Found sensor s o
    → Post
        (λ r.
          (Unexpected sensor s × (r ≡ (s, reply from missed ∷ [])))
          ⊎ ((i : ℕ) × Chosen sensor s i × Moves sensor s i r.0))
        (hit_by w from sensor s o)
hit_by-Moves w from sensor s none h = inl (h, refl)
hit_by-Moves w from sensor s (some i) h =
    let m = record missed { prev_sensor_id = s.train_positions i } in
    let s' : Server = record s { train_positions = update s.train_positions i sensor } in
    by_node (node_of w sensor) m s' refl (λ k _. refl)
  where
    by_node :
        (p : Option ℕ) (m : TrainSystemResponse) (s' : Server)
        → s'.train_positions ≡ update s.train_positions i sensor
        → ((k : ℕ) → i ≢ k → s'.train_next_sensors k ≡ s.train_next_sensors k)
        → Post
            (λ r.
              (Unexpected sensor s × (r ≡ (s, reply from missed ∷ [])))
              ⊎ ((j : ℕ) × Chosen sensor s j × Moves sensor s j r.0))
            (located w from i m s' p)
    by_node none m s' a b = inr (i, h, (a, b))
    by_node (some cur) m s' a b =
        Post-map
          (λ r.
            (r.0.train_positions ≡ s'.train_positions)
            × ((k : ℕ) → i ≢ k → r.0.train_next_sensors k ≡ s'.train_next_sensors k))
          (λ r.
            (Unexpected sensor s × (r ≡ (s, reply from missed ∷ [])))
            ⊎ ((j : ℕ) × Chosen sensor s j × Moves sensor s j r.0))
          (predict_hit w from i (train_at i train_data_trains) cur m s')
          (λ r c. inr (i, h, (c.0 ∙ a, λ k e. c.1 k e ∙ b k e)))
          (predict_hit-Moves w from i (train_at i train_data_trains) cur m s')

-- When a sensor is hit and the request is handled, either no train expects it, next or after the next,
-- and nothing changes and the reply names no train; or it is taken for the first train whose next
-- sensor it is, and failing that the first for which it is the one after the next: that train is then
-- at the sensor, and for every other train position and next sensors are as before.
pub sensor_hit-Moves :
    (w : Answers) (from : ℕ) (sensor : ℤ) (s : Server) (r : Server × List Output)
    → sensor_hit w from sensor s ≡ some r
    → (Unexpected sensor s × (r ≡ (s, reply from missed ∷ [])))
      ⊎ ((i : ℕ) × Chosen sensor s i × Moves sensor s i r.0)
unfolding sensor_hit
sensor_hit-Moves w from sensor s r e =
    Post_at
      (λ q.
        (Unexpected sensor s × (q ≡ (s, reply from missed ∷ [])))
        ⊎ ((i : ℕ) × Chosen sensor s i × Moves sensor s i q.0))
      (hit_by w from sensor s (train_hit sensor s)) r
      (hit_by-Moves w from sensor s (train_hit sensor s) (train_hit-Found sensor s)) e
