-- ===== src/User/Djikstra/Pick.antt =====
-- user/pathfinder-server/helpers.c: the loop that picks the open node with the least distance.
use mathlib.Core.Path.{subst}
use choochoo_os.Base.{
  ℕ, zero, suc, ◌≤◌, ◌<◌, ◌≡◌, ◌⊎◌, inl, inr, true, false, Option, none, some, arith, ltb, sym,
  if-cases, not_both,
}
use choochoo_os.User.Djikstra.{Search, is_open, consider, pick}

-- What the loop over the first `n` nodes leaves.
abbrev pub Picked : Search → ℕ → Option ℕ → Type 0
Picked s n none = (i : ℕ) → i < n → is_open s i ≡ false
Picked s n (some c) =
    (c < n) × (is_open s c ≡ true) × ((i : ℕ) → i < n → is_open s i ≡ true → s.dist c ≤ s.dist i)

split_last : (P : ℕ → Type 0) (n : ℕ) → ((i : ℕ) → i < n → P i) → P n → (i : ℕ) → i < suc n → P i
split_last P n h p i l = elim (lt_or_last i n l) [ inl l' ↦ h i l' | inr e ↦ subst P (sym e) p ]
  where
    lt_or_last : (i n : ℕ) → i < suc n → (i < n) ⊎ (i ≡ n)
    lt_or_last i n h = omega arith

consider-Picked :
    (s : Search) (n : ℕ) (o : Option ℕ) → Picked s n o → Picked s (suc n) (consider s o n)
unfolding consider
consider-Picked s n none h =
    if-cases (Picked s (suc n)) (is_open s n)
      (λ e. (
        omega arith,
        e,
        split_last (Above n) n (λ i l o. absurd (not_both (is_open s i) o (h i l)))
            (λ _. omega arith),
      ))
      (λ e. split_last (λ i. is_open s i ≡ false) n h e)
  where
    Above : ℕ → ℕ → Type 0
    Above c i = is_open s i ≡ true → s.dist c ≤ s.dist i
consider-Picked s n (some c) h =
    if-cases (Picked s (suc n)) (is_open s n)
      (λ e.
        if-cases (Picked s (suc n)) (ltb (s.dist c) (s.dist n))
          (λ l. (omega arith, h.1, split_last (Above c) n h.2 (λ o. ground arith)))
          (λ l. (
            omega arith,
            e,
            split_last (Above n) n (λ i b o. ground (arith, h.2 i b o)) (λ o. omega arith),
          )))
      (λ e.
        (omega arith, h.1, split_last (Above c) n h.2 (λ o. absurd (not_both (is_open s n) o e))))
  where
    Above : ℕ → ℕ → Type 0
    Above c i = is_open s i ≡ true → s.dist c ≤ s.dist i

pub pick-Picked : (s : Search) (n : ℕ) → Picked s n (pick s n)
unfolding pick
pick-Picked s zero = λ i l. absurd (omega arith)
pick-Picked s (suc n) = consider-Picked s n (pick s n) (pick-Picked s n)
