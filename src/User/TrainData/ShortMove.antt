-- ===== src/User/TrainData/ShortMove.antt =====
-- user/traindata/train_data.c: train_data_short_move_time never gives a longer move less time.
pub mod Rising
use mathlib.Core.Path.{subst}
use mathlib.Core.Option.{some-injective}
use native.Mathlib.Nat.{le_trans, div-mul-le_self, le-div_iff_mul-le, div-le_self}
use choochoo_os.Base.{
  below, below_at, ℕ, zero, suc, ◌+◌, ◌-◌, ◌*◌, ◌/◌, ◌%◌, ◌^◌, ◌≤◌, ◌<◌, ◌≡◌, refl, ap, ◌∙◌, sym,
  ◌⊎◌, inl, inr, Bool, true, false, Bool-cases, ◌==◌, ltb, ltb→lt, ltb→le, le→ltb, leb, Option,
  none, some, Option-cases, ◌>>=◌, if◌then◌else◌, List, [], ◌∷◌, All, arith,
}
use choochoo_os.User.TrainData.Measured.{
  train_data_short_move_time_increment, train_data_short_move_dist_table,
}
use choochoo_os.User.TrainData.{
  elem, interpolate, short_move_from, get_train_index, index_from, train_data_short_move_time,
}
use choochoo_os.User.TrainData.ShortMove.Rising.{
  longest, ends, past, tail, Rises, measured, Rises-suc, Rises-add,
}

abbrev RowRises : List ℕ → Type 0
RowRises row =
    (d k : ℕ)
    → d + k < longest
    → Rises (short_move_from 0 none none d row) (short_move_from 0 none none (d + k) row)

-- The rows 3 and 4 are the same as the row 2.
abbrev row_2 : List ℕ
row_2 =
    0 ∷ 10 ∷ 17 ∷ 33 ∷ 66 ∷ 97 ∷ 132 ∷ 186 ∷ 235 ∷ 305 ∷ 376 ∷ 475 ∷ 601 ∷ 725 ∷ 890 ∷ 992 ∷ 1118
    ∷ []

row_2-RowRises : RowRises row_2
unfolding short_move_from ends tail
row_2-RowRises =
    Rises-add row_2 992 1118
      (Rises-suc row_2 992 1118 (below_at 1200 (measured row_2 992 1118) refl) far (omega arith))
  where
    far : (d : ℕ) → 1200 ≤ d → short_move_from 0 none none d row_2 ≡ some (tail 992 1118 d)
    far d h = past 0 none none d row_2 (omega arith)

abbrev row_47 : List ℕ
row_47 =
    0 ∷ 8 ∷ 24 ∷ 39 ∷ 73 ∷ 105 ∷ 152 ∷ 203 ∷ 269 ∷ 334 ∷ 435 ∷ 555 ∷ 730 ∷ 873 ∷ 1002 ∷ 1110 ∷ 1175
    ∷ []

row_47-RowRises : RowRises row_47
unfolding short_move_from ends tail
row_47-RowRises =
    Rises-add row_47 1110 1175 (
      Rises-suc row_47 1110 1175 (below_at 1200 (measured row_47 1110 1175) refl) far (omega arith))
  where
    far : (d : ℕ) → 1200 ≤ d → short_move_from 0 none none d row_47 ≡ some (tail 1110 1175 d)
    far d h = past 0 none none d row_47 (omega arith)

abbrev row_54 : List ℕ
row_54 =
    0 ∷ 10 ∷ 25 ∷ 72 ∷ 118 ∷ 192 ∷ 245 ∷ 290 ∷ 330 ∷ 384 ∷ 446 ∷ 477 ∷ 540 ∷ 575 ∷ 639 ∷ 672 ∷ 714
    ∷ []

row_54-RowRises : RowRises row_54
unfolding short_move_from ends tail
row_54-RowRises =
    Rises-add row_54 672 714
      (Rises-suc row_54 672 714 (below_at 1200 (measured row_54 672 714) refl) far (omega arith))
  where
    far : (d : ℕ) → 1200 ≤ d → short_move_from 0 none none d row_54 ≡ some (tail 672 714 d)
    far d h = past 0 none none d row_54 (omega arith)

abbrev row_77 : List ℕ
row_77 =
    0 ∷ 17 ∷ 58 ∷ 97 ∷ 154 ∷ 209 ∷ 300 ∷ 351 ∷ 405 ∷ 458 ∷ 515 ∷ 570 ∷ 634 ∷ 690 ∷ 745 ∷ 805 ∷ 849
    ∷ []

row_77-RowRises : RowRises row_77
unfolding short_move_from ends tail
row_77-RowRises =
    Rises-add row_77 805 849
      (Rises-suc row_77 805 849 (below_at 1200 (measured row_77 805 849) refl) far (omega arith))
  where
    far : (d : ℕ) → 1200 ≤ d → short_move_from 0 none none d row_77 ≡ some (tail 805 849 d)
    far d h = past 0 none none d row_77 (omega arith)

some_eq {ℓ} : {A : Type ℓ} {a b : A} → some a ≡ some b → a ≡ b
some_eq e = some-injective _ _ e

every-RowRises :
    (i : ℕ) (row : List ℕ) → elem train_data_short_move_dist_table i ≡ some row → RowRises row
every-RowRises zero row e = subst RowRises (some_eq e) row_2-RowRises
every-RowRises (suc zero) row e = subst RowRises (some_eq e) row_47-RowRises
every-RowRises (suc (suc zero)) row e = subst RowRises (some_eq e) row_54-RowRises
every-RowRises (suc (suc (suc zero))) row e = subst RowRises (some_eq e) row_54-RowRises
every-RowRises (suc (suc (suc (suc zero)))) row e = subst RowRises (some_eq e) row_54-RowRises
every-RowRises (suc (suc (suc (suc (suc zero))))) row e = subst RowRises (some_eq e) row_77-RowRises
every-RowRises (suc (suc (suc (suc (suc (suc i)))))) row e = absurd (ground arith)

has_row : (i : ℕ) → i < 6 → (row : List ℕ) × (elem train_data_short_move_dist_table i ≡ some row)
has_row zero h = (_, refl)
has_row (suc zero) h = (_, refl)
has_row (suc (suc zero)) h = (_, refl)
has_row (suc (suc (suc zero))) h = (_, refl)
has_row (suc (suc (suc (suc zero)))) h = (_, refl)
has_row (suc (suc (suc (suc (suc zero))))) h = (_, refl)
has_row (suc (suc (suc (suc (suc (suc i)))))) h = absurd (omega arith)

has_index : (train i : ℕ) → get_train_index train ≡ some i → i < 6
unfolding get_train_index index_from
has_index train i h = ground arith

-- For each of the six trains and all distances below 17,000,000 mm, train_data_short_move_time gives a
-- time, between two measured distances and behind the last as at one of them, and no longer distance is
-- given less time.
pub train_data_short_move_time-Rises :
    (train i d e : ℕ)
    → get_train_index train ≡ some i
    → d ≤ e
    → e < longest
    → Rises (train_data_short_move_time train d) (train_data_short_move_time train e)
unfolding train_data_short_move_time
train_data_short_move_time-Rises train i d e h le lt =
    let row = has_row i (has_index train i h) in
    let r = every-RowRises i row.0 row.1 d (e - d) (omega arith) in
    rw (h, row.1)
      (subst
        (λ n. Rises (short_move_from 0 none none d row.0) (short_move_from 0 none none n row.0))
        whole r)
  where
    whole : d + (e - d) ≡ e
    whole = omega arith
