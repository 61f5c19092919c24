-- ===== src/User/Pather/Release.antt =====
-- user/pathfinder-server/server.c: a drive gives back each zone by its count.
use mathlib.Core.Path.{subst}
use choochoo_os.Base.{
  ℕ, ◌+◌, ◌≡◌, refl, ap, ◌∙◌, sym, inl, inr, Bool, true, false, ◌&&◌, Bool-cases, ◌==◌, ==→eq,
  ==→ne, ltb, leb, if◌then◌else◌, update_self, update_ne, List, [], ◌∷◌, ◌++◌, arith,
}
use choochoo_os.Base.Int.{ℤ, pos, negsuc, ◌-ℤ◌, ltb_ℤ, eqb_ℤ}
use choochoo_os.User.Track.{TrackNode, TrackEdge}
use choochoo_os.User.Pather.{
  Output, set_speed, stop, reverse, switch_set, delay, zone_unreserve, zone_unreserve_all_except,
  World, send, release, release_all,
}

-- How often a zone is given back in what was sent.
abbrev pub frees : ℕ → Output → ℕ
frees z (zone_unreserve train y) = if y == z then 1 else 0
frees z (set_speed train s) = 0
frees z (stop train) = 0
frees z (reverse train) = 0
frees z (switch_set n m) = 0
frees z (delay n) = 0
frees z (zone_unreserve_all_except train y) = 0

abbrev pub freed : ℕ → List Output → ℕ
freed z [] = 0
freed z (o ∷ os) = frees z o + freed z os

pub freed-append : (z : ℕ) (xs ys : List Output) → freed z (xs ++ ys) ≡ freed z xs + freed z ys
freed-append z [] ys = omega arith
freed-append z (x ∷ xs) ys = omega (arith, freed-append z xs ys)

-- How many edges of a path lead into a zone.
abbrev pub is_zone : ℕ → ℤ → ℕ
is_zone z (pos y) = if y == z then 1 else 0
is_zone z (negsuc y) = 0

abbrev pub into : (ℕ → TrackNode) → ℕ → List TrackEdge → ℕ
into track z [] = 0
into track z (e ∷ es) = is_zone z (track e.dest).zone + into track z es

pub into-append :
    (track : ℕ → TrackNode) (z : ℕ) (xs ys : List TrackEdge)
    → into track z (xs ++ ys) ≡ into track z xs + into track z ys
into-append track z [] ys = omega arith
into-append track z (x ∷ xs) ys = omega (arith, into-append track z xs ys)

-- Whether a count that goes down by `n` passes from 1 to 0.
abbrev pub runs_out : ℤ → ℕ → Bool
runs_out (pos r) n = ltb 0 r && leb r n
runs_out (negsuc r) n = false

-- The zone `z` is counted down by `n`, and given back once if its count runs out with this.
abbrev pub Counted : ℕ → ℕ → World → World → Type 0
Counted z n w w' =
    (w'.reservations z ≡ w.reservations z -ℤ pos n)
    × (freed z w'.out ≡ freed z w.out + (if runs_out (w.reservations z) n then 1 else 0))

runs_out_add :
    (c : ℤ) (m n : ℕ)
    → (if runs_out c (m + n) then 1 else 0)
      ≡ (if runs_out c m then 1 else 0) + (if runs_out (c -ℤ pos m) n then 1 else 0)
runs_out_add (pos r) m n = ground arith
runs_out_add (negsuc r) m n = ground arith

minus_add : (c : ℤ) (m n : ℕ) → (c -ℤ pos m) -ℤ pos n ≡ c -ℤ pos (m + n)
minus_add (pos r) m n = ground arith
minus_add (negsuc r) m n = ground arith

pub Counted-trans :
    (z m n : ℕ) (u v w : World) → Counted z m u v → Counted z n v w → Counted z (m + n) u w
Counted-trans z m n u v w (a, b) (c, d) = (
  c ∙ ap (λ k. k -ℤ pos n) a ∙ minus_add (u.reservations z) m n,
  let d' = subst (λ k. freed z w.out ≡ freed z v.out + (if runs_out k n then 1 else 0)) a d in
      omega (arith, b, d', runs_out_add (u.reservations z) m n),
)

pub Counted-refl : (z : ℕ) (w : World) → Counted z 0 w w
Counted-refl z w = (less_none (w.reservations z), ground (arith, never (w.reservations z)))
  where
    less_none : (c : ℤ) → c ≡ c -ℤ pos 0
    less_none (pos r) = ground arith
    less_none (negsuc r) = ground arith

    never : (c : ℤ) → runs_out c 0 ≡ false
    never (pos r) = ground arith
    never (negsuc r) = refl

-- What is sent besides leaves the counts alone.
pub Counted-send :
    (z : ℕ) (os : List Output) (w : World) → freed z os ≡ 0 → Counted z 0 w (send os w)
Counted-send z os w h =
    let r = Counted-refl z w in (r.0, omega (arith, r.1, freed-append z w.out os))

gives_back : (c : ℤ) → (ltb_ℤ (pos 0) c && eqb_ℤ (c -ℤ pos 1) (pos 0)) ≡ runs_out c 1
gives_back (pos r) = ground arith
gives_back (negsuc r) = ground arith

if_freed :
    (train z : ℕ) (b : Bool)
    → freed z (if b then zone_unreserve train z ∷ [] else []) ≡ (if b then 1 else 0)
if_freed train z true = ground arith
if_freed train z false = refl

if_freed_other :
    (train y z : ℕ) (b : Bool)
    → (y == z) ≡ false
    → freed z (if b then zone_unreserve train y ∷ [] else []) ≡ 0
if_freed_other train y z true h = rw h refl
if_freed_other train y z false h = refl

pub release-Counted :
    (train z : ℕ) (zone : ℤ) (w : World) → Counted z (is_zone z zone) w (release train zone w)
unfolding release
release-Counted train z (negsuc y) w = Counted-refl z w
release-Counted train z (pos y) w = elim (Bool-cases (y == z)) [
  | inl e ↦
      subst (λ n. Counted z n w (release train (pos y) w)) (sym (counts e))
        (subst (λ k. Counted z 1 w (release train (pos k) w)) (sym (==→eq y z e)) here)
  | inr e ↦
      subst (λ n. Counted z n w (release train (pos y) w)) (sym (ap (λ b. if b then 1 else 0) e))
        (there e)
]
  where
    test : ℕ → Bool
    test k = ltb_ℤ (pos 0) (w.reservations k) && eqb_ℤ (w.reservations k -ℤ pos 1) (pos 0)

    counts : (y == z) ≡ true → is_zone z (pos y) ≡ 1
    counts e = ap (λ b. if b then 1 else 0) e

    here : Counted z 1 w (release train (pos z) w)
    here = (
      update_self w.reservations z (w.reservations z -ℤ pos 1),
      freed-append z w.out (if test z then zone_unreserve train z ∷ [] else [])
          ∙ ap (λ k. freed z w.out + k)
              (if_freed train z (test z)
                ∙ ap (λ b. if b then 1 else 0) (gives_back (w.reservations z))),
    )

    there : (y == z) ≡ false → Counted z 0 w (release train (pos y) w)
    there e =
        let r = Counted-refl z w in
        (
          update_ne w.reservations y z (w.reservations y -ℤ pos 1) (==→ne y z e) ∙ r.0,
          omega (
            arith,
            r.1,
            freed-append z w.out (if test y then zone_unreserve train y ∷ [] else []),
            if_freed_other train y z (test y) e,
          ),
        )

pub release_all-Counted :
    (train z : ℕ) (track : ℕ → TrackNode) (es : List TrackEdge) (w : World)
    → Counted z (into track z es) w (release_all train track es w)
unfolding release_all
release_all-Counted train z track [] w = Counted-refl z w
release_all-Counted train z track (e ∷ es) w =
    let zone = (track e.dest).zone in
    Counted-trans z (is_zone z zone) (into track z es) w (release train zone w)
      (release_all train track es (release train zone w)) (release-Counted train z zone w)
      (release_all-Counted train z track es (release train zone w))
