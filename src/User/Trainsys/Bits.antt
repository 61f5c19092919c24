-- ===== src/User/Trainsys/Bits.antt =====
-- user/trainsys-server/server.c: the state byte of a train is its speed and its lights.
use choochoo_os.Base.{
  ℕ, ◌+◌, ◌/◌, ◌%◌, ◌<◌, ◌≡◌, refl, Bool, true, false, ◌&&◌, ◌==◌, ==→eq, if◌then◌else◌, below,
  below_at, and_left, and_right, arith,
}
use choochoo_os.User.Trainsys.State.{or_bits, with_speed, with_lights, without_speed, speed_of}

-- The bytes that occur: a speed below 16, and 16 for the lights.
abbrev pub byte : ℕ → Bool → ℕ
byte speed lights = (if lights then 16 else 0) + speed

abbrev pub lights_of : ℕ → Bool
lights_of state = state / 16 % 2 == 1

speeds_checked : below 32 (λ a. below 16 (λ b. with_speed a b == byte b (lights_of a))) ≡ true
unfolding with_speed or_bits
speeds_checked = refl

lights_checked :
    below 32 (λ a.
      with_lights true a == byte (speed_of a) true
      && with_lights false a == byte (speed_of a) false)
    ≡ true
unfolding with_lights or_bits
lights_checked = refl

pub with_speed-byte :
    (state speed : ℕ)
    → state < 32
    → speed < 16
    → with_speed state speed ≡ byte speed (lights_of state)
with_speed-byte a b h k = ==→eq (with_speed a b) (byte b (lights_of a)) (
    below_at 16 (λ c. with_speed a c == byte c (lights_of a))
      (below_at 32 (λ d. below 16 (λ c. with_speed d c == byte c (lights_of d))) speeds_checked a h)
      b k)

pub with_lights-byte :
    (on : Bool) (state : ℕ) → state < 32 → with_lights on state ≡ byte (speed_of state) on
with_lights-byte on a h = by_case on
  where
    on_off :
        (with_lights true a == byte (speed_of a) true)
          && (with_lights false a == byte (speed_of a) false)
        ≡ true
    on_off =
        below_at 32
          (λ d.
            with_lights true d == byte (speed_of d) true
            && with_lights false d == byte (speed_of d) false)
          lights_checked a h

    by_case : (b : Bool) → with_lights b a ≡ byte (speed_of a) b
    by_case true = ==→eq (with_lights true a) (byte (speed_of a) true) (
        and_left (with_lights true a == byte (speed_of a) true)
          (with_lights false a == byte (speed_of a) false) on_off)
    by_case false = ==→eq (with_lights false a) (byte (speed_of a) false) (
        and_right (with_lights true a == byte (speed_of a) true)
          (with_lights false a == byte (speed_of a) false) on_off)

pub without_speed-byte : (state : ℕ) → state < 32 → without_speed state ≡ byte 0 (lights_of state)
without_speed-byte a h = ground arith

pub speed_of-byte : (speed : ℕ) (on : Bool) → speed < 16 → speed_of (byte speed on) ≡ speed
speed_of-byte a on h = ground arith

pub lights_of-byte : (speed : ℕ) (on : Bool) → speed < 16 → lights_of (byte speed on) ≡ on
lights_of-byte a on h = ground arith
