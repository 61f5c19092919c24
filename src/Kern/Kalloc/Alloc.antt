-- ===== src/Kern/Kalloc/Alloc.antt =====
-- `slab_alloc` is a first fit over the blocks of a slab, and always returns.
use choochoo_os.Base.{
  ℕ, zero, suc, ◌+◌, ◌*◌, ◌≤◌, ◌<◌, ◌≡◌, refl, ◌≢◌, inl, inr, true, false, ltb, arith, Bool-cases,
  sym, ltb→le, ltb→lt, not, ◌&&◌, update, update_self, update_ne, ◌==◌,
}
use choochoo_os.Kern.Kalloc.{
  AllocationType, count, task, take_block, code, SlabPartition, SlabAllocator, Scan, found,
  exhausted, unfinished, slab_allocator_size, scan_blocks, slab_alloc,
}

-- A block that `slab_alloc` may give: free, and wholly inside the buffer.
abbrev pub Fits : SlabPartition → ℕ → Type 0
Fits sb i = (sb.in_use i ≡ false) × (i + sb.block_size < slab_allocator_size)

-- The offset of block `k` counted from `i`.
abbrev pub block : SlabPartition → ℕ → ℕ → ℕ
block sb i k = i + k * sb.block_size

-- What the loop from `i` finds: the first block that fits, or none if no block fits.
abbrev pub FirstFit : SlabPartition → ℕ → Scan → Type 0
FirstFit sb i (found j) =
    Fits sb j × ((k : ℕ) × (j ≡ block sb i k) × ((m : ℕ) → m < k → ¬ Fits sb (block sb i m)))
FirstFit sb i exhausted = (m : ℕ) → ¬ Fits sb (block sb i m)
FirstFit sb i unfinished = ⊥

not-Fits_end :
    (sb : SlabPartition) (i : ℕ) → slab_allocator_size ≤ i → (m : ℕ) → ¬ Fits sb (block sb i m)
not-Fits_end sb i h m f = omega arith

block-zero : (sb : SlabPartition) (i : ℕ) → block sb i 0 ≡ i
block-zero sb i = omega arith

block-suc : (sb : SlabPartition) (i m : ℕ) → block sb i (suc m) ≡ block sb (i + sb.block_size) m
block-suc sb i m = grind arith

module _ (sb : SlabPartition) (i : ℕ) (misfit : ¬ Fits sb i) where
  -- The blocks before block `n + 1` from `i` are block `i` and those before block `n` further on.
  not-Fits-shift :
      (n : ℕ)
      → ((m : ℕ) → m < n → ¬ Fits sb (block sb (i + sb.block_size) m))
      → (m : ℕ) → m < suc n
      → ¬ Fits sb (block sb i m)
  not-Fits-shift n h zero lt = rw (block-zero sb i) misfit
  not-Fits-shift n h (suc m) lt = rw (block-suc sb i m) (h m (omega arith))

  FirstFit-step : (r : Scan) → FirstFit sb (i + sb.block_size) r → FirstFit sb i r
  FirstFit-step (found j) (fits, (k, e, before)) =
      (fits, (suc k, rw (block-suc sb i k) e, not-Fits-shift k before))
  FirstFit-step exhausted h = λ m. not-Fits-shift m (λ n _. h n) m (omega arith)
  FirstFit-step unfinished h = h

not-Fits-test :
    (sb : SlabPartition) (i : ℕ)
    → (not (sb.in_use i) && ltb (i + sb.block_size) slab_allocator_size) ≡ false
    → ¬ Fits sb i
not-Fits-test sb i e f = ground arith

Fits-test :
    (sb : SlabPartition) (i : ℕ)
    → (not (sb.in_use i) && ltb (i + sb.block_size) slab_allocator_size) ≡ true
    → Fits sb i
Fits-test sb i e = ground arith

scan_blocks-FirstFit :
    (fuel : ℕ) (sb : SlabPartition) (i : ℕ)
    → 0 < sb.block_size
    → 0 < fuel
    → slab_allocator_size < fuel + i
    → FirstFit sb i (scan_blocks fuel sb i)
unfolding scan_blocks
scan_blocks-FirstFit zero sb i h g f = absurd (omega arith)
scan_blocks-FirstFit (suc fuel) sb i h g f = elim (Bool-cases (ltb i slab_allocator_size)) [
  | inr out ↦ rw out (not-Fits_end sb i (ltb→le _ _ out))
  | inl inside ↦
      elim (Bool-cases (not (sb.in_use i) && ltb (i + sb.block_size) slab_allocator_size)) [
        | inl fits ↦
            rw (inside, fits)
              (Fits-test sb i fits, (0, sym (block-zero sb i), λ m lt. absurd (omega arith)))
        | inr misfit ↦
            rw (inside, misfit)
              (FirstFit-step sb i (not-Fits-test sb i misfit) _ (
                scan_blocks-FirstFit fuel sb (i + sb.block_size) h
                  (let p = ltb→lt _ _ inside in omega arith) (omega arith)))
      ]
]

code-ne : (at : AllocationType) → at ≢ count → (code at == 17) ≡ false
code-ne task h = refl
code-ne count h = absurd (h refl)
code-ne _ h = refl

-- The slab that `slab_alloc` leaves, by its result.
abbrev pub Granted : AllocationType → SlabAllocator → Scan → SlabAllocator → Type 0
Granted at s (found i) t =
    (t (code at) ≡ record (s (code at)) { in_use = update (s (code at)).in_use i true })
    × ((n : ℕ) → n ≢ code at → t n ≡ s n)
Granted at s _ t = t ≡ s

slab_alloc-Granted :
    (at : AllocationType) (s : SlabAllocator) (r : Scan) → Granted at s r (take_block at s r).1
slab_alloc-Granted at s (found i) =
    (update_self s (code at) _, λ n ne. update_ne s (code at) n _ (λ e. ne (sym e)))
slab_alloc-Granted at s exhausted = refl
slab_alloc-Granted at s unfinished = refl

take_block-result : (at : AllocationType) (s : SlabAllocator) (r : Scan) → (take_block at s r).0 ≡ r
take_block-result at s (found i) = refl
take_block-result at s exhausted = refl
take_block-result at s unfinished = refl

-- For a slab with a block size, `slab_alloc` returns the first block that is free and lies inside the
-- buffer, and marks it alone; it returns the null pointer only if no block is free, and then changes
-- nothing. It never loops for ever.
pub slab_alloc-FirstFit :
    (at : AllocationType) (s : SlabAllocator)
    → at ≢ count
    → 0 < (s (code at)).block_size
    → let (r, t) = slab_alloc at s in FirstFit (s (code at)) 0 r × Granted at s r t
unfolding slab_alloc
slab_alloc-FirstFit at s ne h =
    rw (code-ne at ne, take_block-result at s _)
      (
        scan_blocks-FirstFit (suc slab_allocator_size) (s (code at)) 0 h (omega arith)
            (omega arith),
        slab_alloc-Granted at s _,
      )
