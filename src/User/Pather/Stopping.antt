-- ===== src/User/Pather/Stopping.antt =====
-- user/pathfinder-server/server.c: the sensor that a train waits for before it slows down, and its speed.
use mathlib.Core.Path.{subst}
use choochoo_os.Base.{
  ℕ, ◌≡◌, ◌≢◌, refl, ap, ◌∙◌, sym, inl, inr, Bool, true, false, ◌&&◌, not, Bool-cases, Option, none,
  some, List, [], ◌∷◌, ◌++◌, arith,
}
use choochoo_os.Base.Int.{ℤ, pos, negsuc, ◌+ℤ◌, ◌-ℤ◌, ltb_ℤ}
use choochoo_os.User.Track.{TrackNode, TrackEdge, is_sensor}
use choochoo_os.User.Pather.{waiting_from}

-- The length of some edges.
abbrev pub room : List TrackEdge → ℤ
room [] = pos 0
room (e ∷ es) = e.dist +ℤ room es

-- The edge `e` starts at a sensor, and with the edges `behind` up to the end of the path it is as long as
-- the train needs to stop.
abbrev pub Enough : (ℕ → TrackNode) → ℤ → List TrackEdge → TrackEdge → Type 0
Enough track stop behind e =
    (is_sensor (track e.src).type ≡ true) × (ltb_ℤ (room (behind ++ e ∷ [])) stop ≡ false)

-- The last such edge, of a path that is read from its end.
abbrev pub LastEnough : (ℕ → TrackNode) → ℤ → List TrackEdge → Option ℕ → Type 0
LastEnough track stop path none =
    (behind : List TrackEdge) (e : TrackEdge) (before : List TrackEdge)
    → path ≡ behind ++ e ∷ before
    → ¬ Enough track stop behind e
LastEnough track stop path (some w) =
    (behind : List TrackEdge) × (e : TrackEdge) × (before : List TrackEdge) × (path
      ≡ behind ++ e ∷ before)
    × (w ≡ e.src)
    × Enough track stop behind e
    × ((behind' : List TrackEdge) (e' : TrackEdge) (between : List TrackEdge)
        → behind ≡ behind' ++ e' ∷ between
        → ¬ Enough track stop behind' e')

less_first : (x a b : ℤ) → ltb_ℤ x (a -ℤ b) ≡ ltb_ℤ (b +ℤ x) a
less_first (pos x) (pos a) (pos b) = ground arith
less_first (pos x) (pos a) (negsuc b) = ground arith
less_first (pos x) (negsuc a) (pos b) = ground arith
less_first (pos x) (negsuc a) (negsuc b) = ground arith
less_first (negsuc x) (pos a) (pos b) = ground arith
less_first (negsuc x) (pos a) (negsuc b) = ground arith
less_first (negsuc x) (negsuc a) (pos b) = ground arith
less_first (negsuc x) (negsuc a) (negsuc b) = ground arith

nonempty : (xs : List TrackEdge) (x : TrackEdge) (l : List TrackEdge) → [] ≢ xs ++ x ∷ l
nonempty [] x l h = cc
nonempty (y ∷ ys) x l h = cc

heads : {x y : TrackEdge} {xs ys : List TrackEdge} → x ∷ xs ≡ y ∷ ys → x ≡ y
heads h = cc

tails : {x y : TrackEdge} {xs ys : List TrackEdge} → x ∷ xs ≡ y ∷ ys → xs ≡ ys
tails h = cc

module _ (track : ℕ → TrackNode) (stop : ℤ) (x : TrackEdge) where
  nearer :
      (y : TrackEdge) (behind : List TrackEdge) (e : TrackEdge)
      → x ≡ y
      → Enough track stop (y ∷ behind) e
      → Enough track (stop -ℤ x.dist) behind e
  nearer y behind e q h = (
    h.0,
    less_first (room (behind ++ e ∷ [])) stop x.dist
        ∙ ap (λ v. ltb_ℤ (v.dist +ℤ room (behind ++ e ∷ [])) stop) q
        ∙ h.1,
  )

  farther :
      (behind : List TrackEdge) (e : TrackEdge)
      → Enough track (stop -ℤ x.dist) behind e
      → Enough track stop (x ∷ behind) e
  farther behind e h = (h.0, sym (less_first (room (behind ++ e ∷ [])) stop x.dist) ∙ h.1)

  -- No edge of a path that goes on with `x`.
  none_in :
      (path : List TrackEdge)
      → ¬ Enough track stop [] x
      → ((behind : List TrackEdge) (e : TrackEdge) (before : List TrackEdge)
          → path ≡ behind ++ e ∷ before
          → ¬ Enough track (stop -ℤ x.dist) behind e)
      → (behind : List TrackEdge) (e : TrackEdge) (before : List TrackEdge)
      → x ∷ path ≡ behind ++ e ∷ before
      → ¬ Enough track stop behind e
  none_in path n h [] e before q k = n (subst (Enough track stop []) (sym (heads q)) k)
  none_in path n h (y ∷ behind) e before q k =
      h behind e before (tails q) (nearer y behind e (heads q) k)

  further :
      (path : List TrackEdge) (o : Option ℕ)
      → ¬ Enough track stop [] x
      → LastEnough track (stop -ℤ x.dist) path o
      → LastEnough track stop (x ∷ path) o
  further path none n h = none_in path n h
  further path (some w) n (behind, e, before, q, v, enough, first) =
      (x ∷ behind, e, before, ap (λ l. x ∷ l) q, v, farther behind e enough, none_in behind n first)

pub waiting_from-LastEnough :
    (track : ℕ → TrackNode) (stop : ℤ) (path : List TrackEdge)
    → LastEnough track stop path (waiting_from track stop path)
unfolding waiting_from
waiting_from-LastEnough track stop [] = λ behind e before h k. nonempty behind e before h
waiting_from-LastEnough track stop (x ∷ xs) = elim (Bool-cases (stops_here)) [
  | inl h ↦
      rw h ([], x, xs, refl, refl, enough h, λ behind e between q k. nonempty behind e between q)
  | inr h ↦ rw h (
      further track stop x xs (waiting_from track (stop -ℤ x.dist) xs) (too_near h)
        (waiting_from-LastEnough track (stop -ℤ x.dist) xs))
]
  where
    stops_here : Bool
    stops_here = not (ltb_ℤ (pos 0) (stop -ℤ x.dist)) && is_sensor (track x.src).type

    same : ltb_ℤ (pos 0) (stop -ℤ x.dist) ≡ ltb_ℤ (x.dist +ℤ pos 0) stop
    same = less_first (pos 0) stop x.dist

    enough : stops_here ≡ true → Enough track stop [] x
    enough h = (ground arith, sym same ∙ ground arith)

    both : (a b : Bool) → not a && b ≡ false → a ≡ false → b ≡ true → ⊥
    both a b h k l = ground arith

    too_near : stops_here ≡ false → ¬ Enough track stop [] x
    too_near h k =
        both (ltb_ℤ (pos 0) (stop -ℤ x.dist)) (is_sensor (track x.src).type) h (same ∙ k.1) k.0
