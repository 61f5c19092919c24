-- ===== src/User/Pather/Tests.antt =====
-- Drives over track A: from the sensor A1 on, and over the turnouts 154 and 153.
use mathlib.Core.Option.{some-injective}
use choochoo_os.Base.{
  ◌≢◌, ℕ, ◌+◌, ◌≡◌, refl, ap, sym, ◌∙◌, inl, inr, true, false, some, List, [], ◌∷◌, All, arith,
}
use choochoo_os.Base.Int.{ℤ, pos}
use choochoo_os.User.Switch.{
  start, SwitchMode, switch_mode_s, switch_mode_c, switch_mode_unknown, get_switch_index, other_of,
}
use choochoo_os.User.Switch.Pairs.{opposite}
use choochoo_os.User.Track.{TrackEdge}
use choochoo_os.User.Track.Post.{post_track, for_switches, for_nodes}
use choochoo_os.User.Track.TrackA.{init_tracka}
use choochoo_os.User.TrackWalk.{next_of_branch}
use choochoo_os.User.TrainData.{get_train_index, get_speed_index, index_from, train_data_stop_dist}
use choochoo_os.User.Pather.{
  World, set_speed, zone_unreserve, Plan, plan, plan_from, plan_at, waiting_from, set_switches,
  set_switch_at, release, release_all,
}
use choochoo_os.User.Pather.Drive.{
  Drive, returns, waits, pather_simple_path, pass, follow, slow_speed,
}
use choochoo_os.User.Pather.Release.{into, Counted}
use choochoo_os.User.Pather.Account.Pass.{held}
use choochoo_os.User.Pather.Arrives.{pather_simple_path_arrives}
use choochoo_os.User.Pather.Speed.{Fastest, plan-Fastest}
use choochoo_os.User.Pather.Turnouts.{handled_all, IsPath, Takes, set_switches-Takes}
use choochoo_os.User.Pather.Turnouts.Arms.{Leaves}
use choochoo_os.User.Pather.Reserve.{run_route, start_in}
use choochoo_os.User.Pather.Reserve.Safe.{IsSafe, log_of, run_route-IsSafe}

abbrev edge : ℕ → ℕ → TrackEdge
edge n dir = (init_tracka n).edge dir

abbrev ahead : List TrackEdge
ahead = edge 103 0 ∷ edge 101 0 ∷ edge 44 0 ∷ edge 70 0 ∷ []

abbrev drive : Drive
drive = record {
  track = init_tracka;
  train = 58;
  speed = 8;
  offset = pos 0;
  final_destination = false;
}

abbrev world : List ℤ → World
world sensors = record { out = []; sensors = sensors; reservations = λ _. pos 1 }

pather_simple_path_arrives_example :
    (w' : World) × (pather_simple_path drive
        (edge 0 0 ∷ ahead)
        false
        (world (pos 44 ∷ pos 70 ∷ pos 54 ∷ []))
      ≡ returns w')
    × ((z : ℕ)
        → Counted z
            (held z (init_tracka 0).zone false + into init_tracka z (edge 0 0 ∷ ahead))
            (world (pos 44 ∷ pos 70 ∷ pos 54 ∷ []))
            w')
unfolding post_track for_switches for_nodes get_train_index index_from
pather_simple_path_arrives_example =
    pather_simple_path_arrives drive 4 (edge 0 0) ahead (edge 70 0)
      (edge 44 0 ∷ edge 101 0 ∷ edge 103 0 ∷ edge 0 0 ∷ []) false
      (world (pos 44 ∷ pos 70 ∷ pos 54 ∷ [])) refl (refl, refl) refl (inl refl)
      (inr (inr (inl refl)))

plan-Fastest_example :
    (p : Plan) × (plan init_tracka 0 (edge 70 0 ∷ edge 44 0 ∷ []) 58 (pos 0) 8 ≡ some p)
    × Fastest init_tracka 0 (edge 70 0 ∷ edge 44 0 ∷ []) 58 (pos 0) 5 p
unfolding get_train_index get_speed_index index_from
plan-Fastest_example =
    plan-Fastest init_tracka 0 (edge 70 0 ∷ edge 44 0 ∷ []) 58 4 8 5 (pos 0) refl refl

-- A13 is sensor 12, hit by another train: the merge of turnout 12 has the same number, and its zone is
-- given back although no sensor on the way is hit.
early_release :
    pather_simple_path drive (edge 0 0 ∷ ahead) false (world (pos 12 ∷ []))
    ≡ waits (record {
      out = set_speed 58 (pos 8) ∷ zone_unreserve 58 10 ∷ [];
      sensors = [];
      reservations = (release 58 (pos 10) (world [])).reservations;
    })
unfolding pather_simple_path plan plan_from plan_at waiting_from set_switches slow_speed follow pass
    release release_all post_track for_switches for_nodes get_train_index get_speed_index index_from
    train_data_stop_dist set_switch_at
early_release = refl

-- The three ways at the turnouts 154 and 153, the middle one to the left.
abbrev three_ways : List TrackEdge
three_ways = edge 118 0 ∷ edge 116 1 ∷ []

lies_at : (a b : ℕ) {x y : TrackEdge} → x.dest ≡ a → y.dest ≡ b → a ≢ b → some x ≢ some y
lies_at a b p q n h = n (sym p ∙ ap (λ x. x.dest) (some-injective _ _ h) ∙ q)

straight_at_154 :
    (m : SwitchMode) → next_of_branch (init_tracka 118) m ≡ some (edge 118 0) → m ≡ switch_mode_s
unfolding post_track for_switches for_nodes
straight_at_154 switch_mode_s h = refl
straight_at_154 switch_mode_c h = absurd (lies_at 29 116 refl refl (λ e. omega arith) h)
straight_at_154 switch_mode_unknown h = absurd (ground arith)

curved_at_153 :
    (m : SwitchMode) → next_of_branch (init_tracka 116) m ≡ some (edge 116 1) → m ≡ switch_mode_c
unfolding post_track for_switches for_nodes
curved_at_153 switch_mode_s h = absurd (lies_at 125 32 refl refl (λ e. omega arith) h)
curved_at_153 switch_mode_c h = refl
curved_at_153 switch_mode_unknown h = absurd (ground arith)

three_ways-IsPath : IsPath init_tracka three_ways
unfolding post_track for_switches for_nodes get_switch_index other_of
three_ways-IsPath = (
  (inl refl, (19, refl)),
  ((λ _ _ j m m' i p q. stays j m m' i p q), tt),
  ((inr refl, (18, refl)), tt, tt),
)
  where
    apart : (k : ℕ) → 18 ≡ k → 19 ≡ k → ⊥
    apart k a b = omega arith

    stays :
        (j : ℕ) (m m' : SwitchMode)
        → get_switch_index (pos 154) ≡ some j
        → next_of_branch (init_tracka 118) m ≡ some (edge 118 0)
        → next_of_branch (init_tracka 116) m' ≡ some (edge 116 1)
        → Leaves j m (pos 153) m'
    stays j m m' i p q = (
      λ e. absurd (apart j (some-injective _ _ e) (some-injective _ _ i)),
      λ id _. ap opposite (curved_at_153 m' q) ∙ sym (straight_at_154 m p),
    )

set_switches-Takes_example :
    All (Takes init_tracka (handled_all (set_switches init_tracka three_ways) start)) three_ways
set_switches-Takes_example = set_switches-Takes init_tracka three_ways start three_ways-IsPath

-- The zone of E7 is refused, so the train goes up to the sensor before it and waits; the zone is refused once more.
run_route-IsSafe_example : IsSafe init_tracka (
    log_of (
      run_route drive
        (edge 0 0 ∷ ahead)
        (start_in 27 (true ∷ true ∷ true ∷ false ∷ []) (pos 44 ∷ []))))
run_route-IsSafe_example =
    run_route-IsSafe drive (edge 0 0 ∷ ahead) 27 (true ∷ true ∷ true ∷ false ∷ []) (pos 44 ∷ [])
