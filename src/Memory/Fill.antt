-- ===== src/Memory/Fill.antt =====
-- `memset` fills its bytes and touches no others.
use choochoo_os.Base.{
  ℕ, zero, suc, ◌+◌, ◌%◌, ◌^◌, ◌≡◌, ◌∙◌, ◌&&◌, ltb, leb, update, if◌then◌else◌, arith,
}
use choochoo_os.Memory.{Memory, memset}

-- Every byte after memset, in the region and outside it: `c` as a byte from `s` on for `n` bytes, and
-- what was there elsewhere.
pub memset_at :
    (n s c : ℕ) (m : Memory) (a : ℕ)
    → memset s c n m a ≡ (if leb s a && ltb a (s + n) then c % 2 ^ 8 else m a)
unfolding memset
memset_at zero s c m a = ground arith
memset_at (suc n) s c m a = memset_at n (s + 1) c (update m s (c % 2 ^ 8)) a ∙ ground arith
