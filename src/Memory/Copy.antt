-- ===== src/Memory/Copy.antt =====
-- `memcpy` copies its bytes and touches no others.
use choochoo_os.Base.{
  ℕ, zero, suc, ◌+◌, ◌^◌, ◌≤◌, ◌<◌, ◌≡◌, refl, ◌⊎◌, update, update_ne, arith, ◌∙◌,
}
use choochoo_os.Memory.{Memory, memcpy, store_int, load_int}

-- Two regions of `n` bytes share none.
abbrev pub Apart : ℕ → ℕ → ℕ → Type 0
Apart n p q = (p + n ≤ q) ⊎ (q + n ≤ p)

-- A byte outside the destination stays.
pub memcpy_outside :
    (n dest src : ℕ) (m : Memory) (a : ℕ)
    → (a < dest) ⊎ (dest + n ≤ a)
    → memcpy dest src n m a ≡ m a
unfolding memcpy
memcpy_outside zero dest src m a h = refl
memcpy_outside (suc n) dest src m a h =
    memcpy_outside n (dest + 1) (src + 1) (update m dest (m src)) a (omega arith)
    ∙ update_ne m dest a (m src) (omega arith)

-- Byte `i` of the destination becomes byte `i` of the source.
pub memcpy_inside :
    (n dest src : ℕ) (m : Memory) (i : ℕ)
    → Apart n dest src
    → i < n
    → memcpy dest src n m (dest + i) ≡ m (src + i)
unfolding memcpy
memcpy_inside zero dest src m i h lt = absurd (omega arith)
memcpy_inside (suc n) dest src m zero h lt =
    memcpy_outside n (dest + 1) (src + 1) (update m dest (m src)) (dest + 0) (omega arith)
    ∙ ground arith
memcpy_inside (suc n) dest src m (suc i) h lt =
    rw (shift dest, shift src)
      (memcpy_inside n (dest + 1) (src + 1) (update m dest (m src)) i (omega arith) (omega arith)
        ∙ update_ne m dest (src + 1 + i) (m src) (omega arith))
  where
    shift : (p : ℕ) → p + suc i ≡ p + 1 + i
    shift p = omega arith

-- What `*p = v` writes is what `*p` reads.
pub load_int-store_int : (p v : ℕ) (m : Memory) → v < 2 ^ 31 → load_int p (store_int p v m) ≡ v
unfolding load_int store_int
load_int-store_int p v m h = ground arith
