-- ===== src/Digits/Clock.antt =====
-- The clock on the screen.
use choochoo_os.Base.{ℕ, ◌+◌, ◌-◌, ◌*◌, ◌/◌, ◌<◌, ◌≡◌, refl, false, ltb, List, [], ◌∷◌, arith}
use choochoo_os.Digits.{format_clock}

-- Tenths of seconds from a text "mm:ss:t" with its 0.
abbrev pub Shows : ℕ → List ℕ → Type 0
Shows time (m1 ∷ m2 ∷ c ∷ s1 ∷ s2 ∷ c' ∷ t ∷ z ∷ []) =
    (((m1 - 48) * 10 + (m2 - 48)) * 600 + ((s1 - 48) * 10 + (s2 - 48)) * 10 + (t - 48) ≡ time)
    × (c ≡ 58)
    × (c' ≡ 58)
    × (z ≡ 0)
    × (s1 < 54)
Shows time _ = ⊥

-- A time of less than an hour in tenths of seconds stands on the clock exactly, as two digits of minutes,
-- two of seconds, the first of them below 6, and one of tenths.
pub format_clock-Shows : (time : ℕ) → time < 36000 → Shows time (format_clock time)
format_clock-Shows time h =
    let early : ltb 5 (time / 10 / 60 / 10) ≡ false = ground (arith, h) in
    rw early (omega (arith, h), refl, refl, refl, omega arith)
