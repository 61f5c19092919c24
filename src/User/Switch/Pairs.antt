-- ===== src/User/Switch/Pairs.antt =====
-- The turnouts of a pair stand in opposite modes.
use choochoo_os.Base.{
  ℕ, ◌<◌, ◌∙◌, ◌≡◌, refl, ◌⊎◌, inl, inr, Option, none, some, List, arith, false, if◌then◌else◌,
  ◌==◌, update, update_ne, Bool-cases, ==→eq, ==→ne, ◌≢◌, leb, ◌&&◌, ◌-◌,
}
use choochoo_os.Base.Int.{ℤ, pos, negsuc}
use choochoo_os.User.Switch.{
  SwitchMode, switch_mode_s, switch_mode_c, switch_mode_unknown, mode_is, SwitchRequestType,
  switch_set, switch_get, switch_wait, other, SwitchRequest, Server, Output, get_switch_index,
  unblock_on_switch, switch_turnout, switch_other, other_of, set_own, set_paired, set_switch,
  handle, handle_type,
}

-- Neither turnout of a pair has been set yet, or their modes are known and opposite.
abbrev pub Opposite : SwitchMode → SwitchMode → Type 0
Opposite switch_mode_unknown switch_mode_unknown = Unit
Opposite switch_mode_s switch_mode_c = Unit
Opposite switch_mode_c switch_mode_s = Unit
Opposite _ _ = ⊥

pub record IsPaired (s : Server) : Type 0 where
  pub first : Opposite (s.switch_states 18) (s.switch_states 19)
  pub second : Opposite (s.switch_states 20) (s.switch_states 21)

states-unblock :
    (id : ℤ) (mode : SwitchMode) (s : Server)
    → (unblock_on_switch id mode s).0.switch_states ≡ s.switch_states
unfolding unblock_on_switch
states-unblock id mode s = refl

-- The states after a turnout is switched.
states-switch_turnout :
    (id : ℤ) (index : ℕ) (mode : SwitchMode) (s : Server) (j : ℕ)
    → (switch_turnout id index mode s).0.switch_states j ≡ update s.switch_states index mode j
unfolding switch_turnout unblock_on_switch
states-switch_turnout id index mode s j = ground arith

abbrev pub opposite : SwitchMode → SwitchMode
opposite mode = if mode_is mode switch_mode_s then switch_mode_c else switch_mode_s

states-switch_other :
    (id : ℤ) (index : ℕ) (mode : SwitchMode) (s : Server) (j : ℕ)
    → (switch_other id index mode s).0.switch_states j
      ≡ update s.switch_states index (opposite mode) j
unfolding switch_other switch_turnout unblock_on_switch
states-switch_other id index mode s j = ground arith

states-set_own :
    (id : ℤ) (mode : SwitchMode) (index : Option ℕ) (s : Server) (j : ℕ)
    → (set_own id mode index s).0.switch_states j
      ≡ elim index [ none ↦ s.switch_states j | some i ↦ update s.switch_states i mode j ]
unfolding set_own
states-set_own id mode none s j = refl
states-set_own id mode (some i) s j = states-switch_turnout id i mode s j

states-set_paired :
    (mode : SwitchMode) (pair : Option (ℤ × ℕ)) (s : Server) (j : ℕ)
    → (set_paired mode pair s).0.switch_states j ≡ elim pair [
      | none ↦ s.switch_states j
      | some (id, i) ↦ update s.switch_states i (opposite mode) j
    ]
unfolding set_paired
states-set_paired mode none s j = refl
states-set_paired mode (some (id, i)) s j = states-switch_other id i mode s j

-- The states after a turnout and the other of its pair are set.
abbrev pub set_states : SwitchMode → Option ℕ → Option (ℤ × ℕ) → (ℕ → SwitchMode) → ℕ → SwitchMode
set_states mode none none r j = r j
set_states mode (some i) none r j = update r i mode j
set_states mode none (some (id, k)) r j = update r k (opposite mode) j
set_states mode (some i) (some (id, k)) r j = update (update r i mode) k (opposite mode) j

pub states-set_switch :
    (id : ℤ) (mode : SwitchMode) (s : Server) (j : ℕ)
    → (set_switch id mode s).0.switch_states j
      ≡ set_states mode (get_switch_index id) (other_of id) s.switch_states j
unfolding set_switch
states-set_switch id mode s j =
    states-set_paired mode (other_of id) (set_own id mode (get_switch_index id) s).0 j
    ∙ by_index (get_switch_index id) (other_of id)
  where
    by_index :
        (index : Option ℕ) (pair : Option (ℤ × ℕ))
        → elim pair [
          | none ↦ (set_own id mode index s).0.switch_states j
          | some (_, i) ↦ update (set_own id mode index s).0.switch_states i (opposite mode) j
        ]
          ≡ set_states mode index pair s.switch_states j
    by_index none none = states-set_own id mode none s j
    by_index (some i) none = states-set_own id mode (some i) s j
    by_index none (some (_, k)) = let e = states-set_own id mode none s j in ground arith
    by_index (some i) (some (_, k)) = let e = states-set_own id mode (some i) s j in ground arith

-- What the tables say of a number: no turnout, a turnout in no pair, or one with the other of its pair.
data Place : Option ℕ → Option (ℤ × ℕ) → Type 0 where
  nowhere : Place none none
  alone : (i : ℕ) → i < 18 → Place (some i) none
  is_153 : Place (some 18) (some (pos 154, 19))
  is_154 : Place (some 19) (some (pos 153, 18))
  is_155 : Place (some 20) (some (pos 156, 21))
  is_156 : Place (some 21) (some (pos 155, 20))

alone_index :
    (n : ℕ)
    → n ≢ 153
    → n ≢ 154
    → n ≢ 155
    → n ≢ 156
    → (other_of (pos n) ≡ none)
      × ((get_switch_index (pos n) ≡ none)
          ⊎ ((i : ℕ) × (i < 18) × (get_switch_index (pos n) ≡ some i)))
unfolding get_switch_index other_of
alone_index n a b c d = elim (Bool-cases (leb 1 n && leb n 18)) [
  | inl e ↦ (ground arith, inr (n - 1, ground arith, ground arith))
  | inr e ↦ (ground arith, inl (ground arith))
]

other_of-negsuc : (n : ℕ) → other_of (negsuc n) ≡ none
unfolding other_of
other_of-negsuc n = ground arith

place : (id : ℤ) → Place (get_switch_index id) (other_of id)
unfolding get_switch_index other_of
place (negsuc n) = rw (other_of-negsuc n) nowhere
place (pos n) = elim (Bool-cases (n == 153)) [
  | inl e ↦ rw (==→eq n 153 e) is_153
  | inr a ↦ elim (Bool-cases (n == 154)) [
    | inl e ↦ rw (==→eq n 154 e) is_154
    | inr b ↦ elim (Bool-cases (n == 155)) [
      | inl e ↦ rw (==→eq n 155 e) is_155
      | inr c ↦ elim (Bool-cases (n == 156)) [
        | inl e ↦ rw (==→eq n 156 e) is_156
        | inr d ↦
            let (o, index) =
              alone_index n (==→ne n 153 a) (==→ne n 154 b) (==→ne n 155 c) (==→ne n 156 d) in
            elim index [ inl e ↦ rw (o, e) nowhere | inr (i, lt, e) ↦ rw (o, e) (alone i lt) ]
      ]
    ]
  ]
]

own_other :
    (j : ℕ) (o : Option ℕ) (p : Option (ℤ × ℕ))
    → Place o p
    → o ≡ some j
    → (id : ℤ) → p ≢ some (id, j)
own_other j o p nowhere e id h = absurd (ground arith)
own_other j o p (alone i lt) e id h = absurd (ground arith)
own_other j o p is_153 e id h = absurd (ground arith)
own_other j o p is_154 e id h = absurd (ground arith)
own_other j o p is_155 e id h = absurd (ground arith)
own_other j o p is_156 e id h = absurd (ground arith)

-- The other of a pair is not the turnout itself.
pub other_of-ne : (n id : ℤ) (j : ℕ) → get_switch_index n ≡ some j → other_of n ≢ some (id, j)
other_of-ne n id j e h = own_other j (get_switch_index n) (other_of n) (place n) e id h

abbrev BothOpposite : (ℕ → SwitchMode) → Type 0
BothOpposite r = Opposite (r 18) (r 19) × Opposite (r 20) (r 21)

set_states-Opposite :
    (mode : SwitchMode) (index : Option ℕ) (pair : Option (ℤ × ℕ)) (r : ℕ → SwitchMode)
    → Place index pair
    → mode_is mode switch_mode_unknown ≡ false
    → BothOpposite r
    → BothOpposite (set_states mode index pair r)
set_states-Opposite mode index pair r nowhere k h = h
set_states-Opposite mode index pair r (alone i lt) k h =
    rw
      (
        update_ne r i 18 mode (omega arith),
        update_ne r i 19 mode (omega arith),
        update_ne r i 20 mode (omega arith),
        update_ne r i 21 mode (omega arith),
      )
      h
set_states-Opposite switch_mode_s index pair r is_153 k h = (tt, h.1)
set_states-Opposite switch_mode_c index pair r is_153 k h = (tt, h.1)
set_states-Opposite switch_mode_s index pair r is_154 k h = (tt, h.1)
set_states-Opposite switch_mode_c index pair r is_154 k h = (tt, h.1)
set_states-Opposite switch_mode_s index pair r is_155 k h = (h.0, tt)
set_states-Opposite switch_mode_c index pair r is_155 k h = (h.0, tt)
set_states-Opposite switch_mode_s index pair r is_156 k h = (h.0, tt)
set_states-Opposite switch_mode_c index pair r is_156 k h = (h.0, tt)
set_states-Opposite switch_mode_unknown index pair r _ k h = absurd (ground arith)

set_switch-IsPaired :
    (id : ℤ) (mode : SwitchMode) (s : Server)
    → mode_is mode switch_mode_unknown ≡ false
    → IsPaired s
    → IsPaired (set_switch id mode s).0
set_switch-IsPaired id mode s k v =
    let e = states-set_switch id mode s in
    let p =
      set_states-Opposite mode (get_switch_index id) (other_of id) s.switch_states (place id) k
        (v.first, v.second) in
    record { first = rw (e 18, e 19) p.0; second = rw (e 20, e 21) p.1 }

IsPaired-cong : (s s' : Server) → s'.switch_states ≡ s.switch_states → IsPaired s → IsPaired s'
IsPaired-cong s s' e v = record { first = rw e v.first; second = rw e v.second }

module _ (from : ℕ) (q : SwitchRequest) (s s' : Server) (out : List Output) where
  set-IsPaired : handle_type switch_set from q s ≡ some (s', out) → IsPaired s → IsPaired s'
  unfolding handle_type
  set-IsPaired h v = elim (Bool-cases (mode_is q.mode switch_mode_unknown)) [
    | inl e ↦ IsPaired-cong s s' (ground arith) v
    | inr e ↦
        IsPaired-cong (set_switch q.switch_id q.mode s).0 s' (ground arith)
          (set_switch-IsPaired q.switch_id q.mode s e v)
  ]

  handle_type-IsPaired :
      (type : SwitchRequestType)
      → handle_type type from q s ≡ some (s', out)
      → IsPaired s
      → IsPaired s'
  unfolding handle_type
  handle_type-IsPaired switch_set h v = set-IsPaired h v
  handle_type-IsPaired switch_get h v = IsPaired-cong s s' (ground arith) v
  handle_type-IsPaired switch_wait h v = IsPaired-cong s s' (ground arith) v
  handle_type-IsPaired other h v = IsPaired-cong s s' (ground arith) v

-- If the turnouts of both pairs of the centre are opposite or unset, every request leaves them so,
-- whether it sets one of them, another turnout, a number that is none, or nothing.
pub handle-IsPaired :
    (from : ℕ) (q : SwitchRequest) (s s' : Server) (out : List Output)
    → handle from q s ≡ some (s', out)
    → IsPaired s
    → IsPaired s'
unfolding handle handle_type
handle-IsPaired from q s s' out h v = handle_type-IsPaired from q s s' out q.type h v
