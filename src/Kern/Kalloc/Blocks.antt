-- ===== src/Kern/Kalloc/Blocks.antt =====
-- Live blocks of a slab do not overlap, and freeing gives a block back.
use mathlib.Core.Path.{fun_ext, subst}
use native.Mathlib.Decide.{dec_lt}
use choochoo_os.Base.{
  ℕ, suc, ◌+◌, ◌*◌, ◌≤◌, ◌<◌, ◌≡◌, ◌≢◌, inl, inr, Bool, true, false, arith, Bool-cases, update,
  some, ◌==◌, sym, ap, update_self, update_ne, ==→eq, ==→ne, lt→ltb,
}
use choochoo_os.Kern.Kalloc.{
  AllocationType, count, code, SlabPartition, SlabAllocator, Scan, found, exhausted, unfinished,
  slab_allocator_size, slab_alloc, slab_free,
}
use choochoo_os.Kern.Kalloc.Alloc.{FirstFit, Granted, slab_alloc-FirstFit}

-- A slab whose blocks in use start at multiples of the block size and lie inside the buffer.
pub record IsSlab (sb : SlabPartition) : Type 0 where
  pub sized : 0 < sb.block_size
  pub aligned :
      (i : ℕ)
      → sb.in_use i ≡ true
      → ((k : ℕ) × (i ≡ k * sb.block_size)) × (i + sb.block_size < slab_allocator_size)

mul-le : (k l b : ℕ) → k ≤ l → k * b ≤ l * b
mul-le k l b h = grind arith

multiples-apart : (k l b : ℕ) → k * b < l * b → k * b + b ≤ l * b
multiples-apart k l b h = elim (dec_lt k l) [
  | yes lt ↦ let m = mul-le (suc k) l b lt in grind arith
  | no ge ↦ let m = mul-le l k b (omega arith) in absurd (omega arith)
]

-- Two blocks in use do not overlap.
pub IsSlab-disjoint :
    {sb : SlabPartition} (i j : ℕ)
    → IsSlab sb
    → sb.in_use i ≡ true
    → sb.in_use j ≡ true
    → i < j
    → i + sb.block_size ≤ j
IsSlab-disjoint {sb} i j v hi hj lt =
    let (k, ek) = (v.aligned i hi).0 in
    let (l, el) = (v.aligned j hj).0 in
    let apart : k * sb.block_size < l * sb.block_size = omega arith in
    omega (arith, multiples-apart k l sb.block_size apart)

-- `slab_alloc` keeps a slab in shape.
pub slab_alloc-IsSlab :
    (at : AllocationType) (s : SlabAllocator)
    → at ≢ count
    → IsSlab (s (code at))
    → IsSlab ((slab_alloc at s).1 (code at))
slab_alloc-IsSlab at s ne v = go (slab_alloc at s).0 (slab_alloc at s).1 p.0 p.1
  where
    p :
        FirstFit (s (code at)) 0 (slab_alloc at s).0
        × Granted at s (slab_alloc at s).0 (slab_alloc at s).1
    p = slab_alloc-FirstFit at s ne v.sized

    go :
        (r : Scan) (t : SlabAllocator)
        → FirstFit (s (code at)) 0 r
        → Granted at s r t
        → IsSlab (t (code at))
    go (found i) t (fits, (k, e, _)) (g, _) = rw g (record {
      sized = v.sized;
      aligned = λ j h. elim (Bool-cases (i == j)) [
        | inl same ↦ rw (← ==→eq i j same) ((k, omega arith), fits.1)
        | inr other ↦
            v.aligned j (rw (update_ne (s (code at)).in_use i j true (==→ne i j other)) at h)
      ];
    })
    go exhausted t f g = rw g v
    go unfinished t f g = absurd f

pub clear-IsSlab :
    {sb : SlabPartition} (i : ℕ)
    → IsSlab sb
    → IsSlab (record sb { in_use = update sb.in_use i false })
clear-IsSlab i v = record { sized = v.sized; aligned = λ j h. v.aligned j (ground arith) }

restore : (u : ℕ → Bool) (i : ℕ) → u i ≡ false → update (update u i true) i false ≡ u
restore u i e = fun_ext λ q. ground arith

module _ (at : AllocationType) (s : SlabAllocator) (i : ℕ) (t : SlabAllocator) where
  undo : FirstFit (s (code at)) 0 (found i) → Granted at s (found i) t → slab_free (some i) at t ≡ s
  unfolding slab_free
  undo (fits, _) (g, rest) =
      rw (g, lt→ltb i slab_allocator_size (omega arith), update_self (s (code at)).in_use i true)
        (fun_ext λ n. elim (Bool-cases (code at == n)) [
          | inl same ↦
              rw (← ==→eq (code at) n same, update_self t (code at) _)
                (ap (λ u. record (s (code at)) { in_use = u })
                  (restore (s (code at)).in_use i fits.0))
          | inr other ↦
              rw (update_ne t (code at) n _ (==→ne _ _ other))
                (rest n (λ e. ==→ne _ _ other (sym e)))
        ])

-- Freeing the block that `slab_alloc` gave brings the allocator back to where it was.
pub slab_free-slab_alloc :
    (at : AllocationType) (s : SlabAllocator) (i : ℕ)
    → at ≢ count
    → IsSlab (s (code at))
    → (slab_alloc at s).0 ≡ found i
    → slab_free (some i) at (slab_alloc at s).1 ≡ s
unfolding slab_free
slab_free-slab_alloc at s i ne v e =
    let (f, g) = slab_alloc-FirstFit at s ne v.sized in
    undo at s i (slab_alloc at s).1 (subst (λ r. FirstFit (s (code at)) 0 r) e f)
      (subst (λ r. Granted at s r (slab_alloc at s).1) e g)
