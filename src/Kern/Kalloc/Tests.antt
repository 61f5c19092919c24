-- ===== src/Kern/Kalloc/Tests.antt =====
-- The allocator at a slab with two blocks.
use choochoo_os.Base.{ℕ, [], ◌∷◌, ◌≡◌, refl, ◌≢◌, true, some, arith, ◌==◌, if◌then◌else◌}
use choochoo_os.Kern.Kalloc.{
  task, count, SlabPartition, SlabAllocator, found, scan_blocks, slab_alloc, slab_free,
}
use choochoo_os.Kern.Kalloc.Alloc.{FirstFit, Granted, slab_alloc-FirstFit}
use choochoo_os.Kern.Kalloc.Blocks.{IsSlab, slab_alloc-IsSlab, slab_free-slab_alloc}
use choochoo_os.Kern.Kalloc.Live.{
  allocate, release, holds, run_calls, Separate, Live, run_calls-Live,
}

-- Blocks of 20000 bytes; the one at 0 is in use.
abbrev partition : SlabPartition
partition = record { block_size = 20000; in_use = λ i. i == 0 }

abbrev slabs : SlabAllocator
slabs at = partition

both : SlabPartition
both = record { block_size = 20000; in_use = λ i. if i == 0 then true else i == 20000 }

partition-IsSlab : IsSlab partition
partition-IsSlab = record {
  sized = omega arith;
  aligned = λ i h. ((0, ground arith), ground arith);
}

task-ne-count : task ≢ count
task-ne-count e = cc

alloc_second : (slab_alloc task slabs).0 ≡ found 20000
unfolding slab_alloc scan_blocks
alloc_second = refl

slab_alloc-FirstFit_example :
    let (r, t) = slab_alloc task slabs in FirstFit partition 0 r × Granted task slabs r t
slab_alloc-FirstFit_example = slab_alloc-FirstFit task slabs task-ne-count (omega arith)

slab_alloc-IsSlab_example : IsSlab ((slab_alloc task slabs).1 0)
slab_alloc-IsSlab_example = slab_alloc-IsSlab task slabs task-ne-count partition-IsSlab

-- The client gives the block at 0 back, is given it again, gives back a block that it does not hold,
-- and is given the block at 20000.
partition-Live : Live partition (0 ∷ [])
unfolding holds Separate
partition-Live = record {
  in_shape = partition-IsSlab;
  marked = λ i. ground arith;
  apart = (tt, tt);
}

run_calls-Live_example :
    let (t, live) =
      run_calls task
        (release (some 0) ∷ allocate ∷ release (some 7) ∷ allocate ∷ [])
        slabs
        (0 ∷ []) in
    Live (t 0) live × ((n : ℕ) → n ≢ 0 → t n ≡ slabs n)
run_calls-Live_example =
    run_calls-Live task (release (some 0) ∷ allocate ∷ release (some 7) ∷ allocate ∷ []) slabs
      (0 ∷ []) task-ne-count partition-Live

slab_free-slab_alloc_example : slab_free (some 20000) task (slab_alloc task slabs).1 ≡ slabs
slab_free-slab_alloc_example =
    slab_free-slab_alloc task slabs 20000 task-ne-count partition-IsSlab alloc_second
