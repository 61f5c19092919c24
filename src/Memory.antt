-- ===== src/Memory.antt =====
-- User memory as bytes: `memcpy` and `memset` of lib/util.c, and the write of an `int`.
pub mod Copy
pub mod Fill
mod Tests
use choochoo_os.Base.{ℕ, zero, suc, ◌+◌, ◌*◌, ◌/◌, ◌%◌, ◌^◌, update}

abbrev pub Memory : Type 0
Memory = ℕ → ℕ

-- The bytes are copied upwards, one by one.
unfoldable pub memcpy : ℕ → ℕ → ℕ → Memory → Memory
memcpy dest src zero m = m
memcpy dest src (suc n) m = memcpy (dest + 1) (src + 1) n (update m dest (m src))

-- One byte, the low one of an `int`, is stored `n` times.
unfoldable pub memset : ℕ → ℕ → ℕ → Memory → Memory
memset s c zero m = m
memset s c (suc n) m = memset (s + 1) c n (update m s (c % 2 ^ 8))

-- `*p = v` for an `int *`, in little-endian order.
unfoldable pub store_int : ℕ → ℕ → Memory → Memory
store_int p v m =
    update
      (update (update (update m p (v % 2 ^ 8)) (p + 1) (v / 2 ^ 8 % 2 ^ 8)) (p + 2)
        (v / 2 ^ 16 % 2 ^ 8))
      (p + 3) (v / 2 ^ 24 % 2 ^ 8)

-- `*p` for an `int *` that holds a number below 2 ^ 31.
unfoldable pub load_int : ℕ → Memory → ℕ
load_int p m = m p + 2 ^ 8 * m (p + 1) + 2 ^ 16 * m (p + 2) + 2 ^ 24 * m (p + 3)
