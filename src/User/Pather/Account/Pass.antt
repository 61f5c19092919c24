-- ===== src/User/Pather/Account/Pass.antt =====
-- user/pathfinder-server/server.c: the edges that one sensor lets PatherSimplePath give back.
use mathlib.Core.Path.{subst}
use mathlib.Core.Option.{some-injective}
use choochoo_os.Base.{
  ℕ, ◌+◌, ◌≡◌, ◌≢◌, refl, ap, ◌∙◌, sym, ◌⊎◌, inl, inr, Bool, true, false, Bool-cases, not_both,
  Option, none, some, ◌>>=◌, if◌then◌else◌, List, [], ◌∷◌, ◌++◌, append_assoc, append-nil, All,
  All-append, arith,
}
use choochoo_os.Base.Int.{ℤ, pos, negsuc, eqb_ℤ, eqb_ℤ_refl}
use choochoo_os.User.Track.{TrackNode, TrackEdge}
use choochoo_os.User.Pather.{World, release_all}
use choochoo_os.User.Pather.Drive.{Drive, Ahead, release_zone, release_source, pass}
use choochoo_os.User.Pather.Release.{
  into, into-append, is_zone, Counted, Counted-refl, Counted-trans, release-Counted,
  release_all-Counted,
}

-- What is held for the zone of the source, behind a reversal.
abbrev pub held : ℕ → ℤ → Bool → ℕ
held z src rev = if rev then is_zone z src else 0

abbrev pub Elsewhere : (ℕ → TrackNode) → ℤ → TrackEdge → Type 0
Elsewhere track hit e = eqb_ℤ (track e.dest).num hit ≡ false

-- The last edge leads to the node with this number.
abbrev pub LastTo : (ℕ → TrackNode) → ℤ → List TrackEdge → Type 0
LastTo track n [] = ⊥
LastTo track n (e ∷ []) = (track e.dest).num ≡ n
LastTo track n (e ∷ f ∷ es) = LastTo track n (f ∷ es)

LastTo-append :
    (track : ℕ → TrackNode) (n : ℤ) (xs : List TrackEdge) (e : TrackEdge) (es : List TrackEdge)
    → LastTo track n (xs ++ e ∷ es)
    → LastTo track n (e ∷ es)
LastTo-append track n [] e es h = h
LastTo-append track n (x ∷ []) e es h = h
LastTo-append track n (x ∷ y ∷ xs) e es h = LastTo-append track n (y ∷ xs) e es h

pub never_last :
    (track : ℕ → TrackNode) (n : ℤ) (es : List TrackEdge)
    → All (Elsewhere track n) es
    → LastTo track n es
    → ⊥
never_last track n [] h k = k
never_last track n (e ∷ []) h k =
    not_both (eqb_ℤ (track e.dest).num n) (ap (λ m. eqb_ℤ m n) k ∙ eqb_ℤ_refl n) h.0
never_last track n (e ∷ f ∷ es) h k = never_last track n (f ∷ es) h.1 k

module _ (d : Drive) (src : ℤ) (z : ℕ) where
  open d use {track, train}

  pub source-Counted :
      (rev : Bool) (w w' : World)
      → release_source train src rev w ≡ some w'
      → Counted z (held z src rev) w w'
  source-Counted false w w' e = subst (Counted z 0 w) (some_eq e) (Counted-refl z w)
    where
      some_eq : {a b : World} → some a ≡ some b → a ≡ b
      some_eq h = some-injective _ _ h
  source-Counted true w w' e = zoned src e
    where
      zoned : (s : ℤ) → release_zone train s w ≡ some w' → Counted z (is_zone z s) w w'
      zoned (pos y) h =
          subst (Counted z (is_zone z (pos y)) w) (some-injective _ _ h)
            (release-Counted train z (pos y) w)
      zoned (negsuc y) h = absurd (ground arith)

  -- Of the edges `all` the first `gone` are given back, the source with them, and none of the rest leads
  -- to the sensor.
  abbrev pub Passed : ℤ → List TrackEdge → Bool → World → Ahead → Type 0
  Passed hit all rev w a =
      (gone : List TrackEdge) × (n : ℕ) × (all ≡ gone ++ a.edges)
      × (held z src rev ≡ n + held z src a.src_is_rev)
      × Counted z (n + into track z gone) w a.world
      × All (Elsewhere track hit) a.edges
      × ((a.src_is_rev ≡ false) ⊎ ((gone ≡ []) × (a.src_is_rev ≡ rev)))

  -- A sensor that the edge `x` leads to.
  pass-through :
      (hit : ℤ) (before es : List TrackEdge) (x : TrackEdge) (rev : Bool) (w : World) (a : Ahead)
      (r : Option World)
      → release_source train src rev w ≡ r
      → (r >>= λ w'. pass d src hit [] es false (release_all train track (before ++ x ∷ []) w'))
        ≡ some a
      → ((u : World) → (pass d src hit [] es false u ≡ some a) → Passed hit es false u a)
      → Passed hit (before ++ x ∷ es) rev w a
  pass-through hit before es x rev w a none s e rest = absurd (ground arith)
  pass-through hit before es x rev w a (some w') s e rest = (
    through ++ r.0,
    held z src rev + r.1,
    sym (append_assoc before (x ∷ []) es)
        ∙ ap (λ l. through ++ l) r.2
        ∙ sym (append_assoc through r.0 a.edges),
    omega (arith, r.3),
    subst (λ n. Counted z n w a.world) sums
        (Counted-trans z (held z src rev) (into track z through + (r.1 + into track z r.0)) w w'
          a.world (source-Counted rev w w' s)
          (Counted-trans z (into track z through) (r.1 + into track z r.0) w' u a.world
            (release_all-Counted train z track through w') r.4)),
    r.5,
    inl (elim r.6 [ inl f ↦ f | inr g ↦ g.1 ]),
  )
    where
      through : List TrackEdge
      through = before ++ x ∷ []

      u : World
      u = release_all train track through w'

      r : Passed hit es false u a
      r = rest u e

      sums :
          held z src rev + (into track z through + (r.1 + into track z r.0))
          ≡ (held z src rev + r.1) + into track z (through ++ r.0)
      sums = omega (arith, into-append track z through r.0)

  pub pass-Passed :
      (hit : ℤ) (before es : List TrackEdge) (rev : Bool) (w : World) (a : Ahead)
      → All (Elsewhere track hit) before
      → pass d src hit before es rev w ≡ some a
      → Passed hit (before ++ es) rev w a
  unfolding pass
  pass-Passed hit before [] rev w a h e =
      subst (Passed hit (before ++ []) rev w) (some-injective _ _ e)
        ([], 0, append-nil before, omega arith, Counted-refl z w, h, inr (refl, refl))
  pass-Passed hit before (x ∷ es) rev w a h e = elim (Bool-cases (eqb_ℤ (track x.dest).num hit)) [
    | inl k ↦
        pass-through hit before es x rev w a (release_source train src rev w) refl (pick _ _ k e)
          (λ u. pass-Passed hit [] es false u a tt)
    | inr k ↦
        subst (λ l. Passed hit l rev w a) (append_assoc before (x ∷ []) es)
          (pass-Passed hit (before ++ x ∷ []) es rev w a
            (All-append (Elsewhere track hit) before (x ∷ []) h (k, tt)) (leave _ _ k e))
  ]
    where
      pick : {b : Bool} (p q : Option Ahead) → b ≡ true → (if b then p else q) ≡ some a → p ≡ some a
      pick p q k g = ground arith

      leave :
          {b : Bool} (p q : Option Ahead) → b ≡ false → (if b then p else q) ≡ some a → q ≡ some a
      leave p q k g = ground arith

  -- What is to be given back until the destination is hit, if it is still ahead.
  abbrev pub Due : ℤ → List TrackEdge → Bool → Type 0
  Due n edges rev = LastTo track n edges ⊎ ((edges ≡ []) × (rev ≡ false))

  pub Due-pass :
      (n hit : ℤ) (edges : List TrackEdge) (rev : Bool) (w : World) (a : Ahead)
      → Due n edges rev
      → Passed hit edges rev w a
      → Due n a.edges a.src_is_rev
  Due-pass n hit edges rev w a due (gone, k, split, h, c, rest, end) = by_rest a.edges refl
    where
      nonempty : (xs : List TrackEdge) (x : TrackEdge) (l : List TrackEdge) → [] ≢ xs ++ x ∷ l
      nonempty [] x l h = cc
      nonempty (y ∷ ys) x l h = cc

      ended : (gone ≡ []) × (a.src_is_rev ≡ rev) → a.edges ≡ [] → a.src_is_rev ≡ false
      ended g none_left = elim due [
        | inl last ↦
            absurd (subst (LastTo track n) (split ∙ ap (λ l. l ++ a.edges) g.0 ∙ none_left) last)
        | inr empty ↦ g.1 ∙ empty.1
      ]

      by_rest : (l : List TrackEdge) → a.edges ≡ l → Due n a.edges a.src_is_rev
      by_rest [] e = inr (e, elim end [ inl f ↦ f | inr g ↦ ended g e ])
      by_rest (x ∷ l) e = elim due [
        | inl last ↦ inl (
            subst (LastTo track n) (sym e) (
              LastTo-append track n gone x l
                (subst (LastTo track n) (split ∙ ap (λ m. gone ++ m) e) last)))
        | inr empty ↦ absurd (nonempty gone x l (sym empty.0 ∙ split ∙ ap (λ m. gone ++ m) e))
      ]
