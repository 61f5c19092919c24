-- ===== src/Kern/Kalloc/Live.antt =====
-- kern/kalloc.c: what a client of a slab sees over a sequence of allocations and releases.
use choochoo_os.Base.{
  ℕ, ◌+◌, ◌<◌, ◌≤◌, ◌≡◌, refl, ◌≢◌, ◌⊎◌, inl, inr, Bool, true, false, Bool-cases, ◌&&◌, ◌||◌, not,
  ◌==◌, if◌then◌else◌, Option, none, some, List, [], ◌∷◌, All, arith, update, update_self,
  update_ne, lt→ltb, ltb, ltb→lt, ltb→le, sym, ◌∙◌, ap,
}
use choochoo_os.Kern.Kalloc.{
  AllocationType, count, code, SlabPartition, SlabAllocator, Scan, found, exhausted, unfinished,
  slab_allocator_size, slab_alloc, slab_free,
}
use choochoo_os.Kern.Kalloc.Alloc.{FirstFit, Granted, slab_alloc-FirstFit}
use choochoo_os.Kern.Kalloc.Blocks.{IsSlab, IsSlab-disjoint, clear-IsSlab, slab_alloc-IsSlab}

-- The calls of a client.
pub data Call : Type 0 where
  allocate : Call
  release : Option ℕ → Call

-- The client's list of the blocks that it was given and has not given back.
unfoldable pub holds : ℕ → List ℕ → Bool
holds i [] = false
holds i (x ∷ xs) = (i == x) || holds i xs

unfoldable pub without : ℕ → List ℕ → List ℕ
without i [] = []
without i (x ∷ xs) = let rest = without i xs in if i == x then rest else x ∷ rest

abbrev pub gain : Scan → List ℕ → List ℕ
gain (found i) live = i ∷ live
gain _ live = live

abbrev pub lose : Option ℕ → List ℕ → List ℕ
lose (some i) live = without i live
lose none live = live

-- The allocator and the client's list after the calls.
unfoldable pub run_calls :
    AllocationType → List Call → SlabAllocator → List ℕ → SlabAllocator × List ℕ
run_calls at [] s live = (s, live)
run_calls at (allocate ∷ cs) s live =
    let (r, t) = slab_alloc at s in run_calls at cs t (gain r live)
run_calls at (release p ∷ cs) s live = run_calls at cs (slab_free p at s) (lose p live)

-- No two blocks of the list overlap.
unfoldable pub Separate : ℕ → List ℕ → Type 0
Separate size [] = Unit
Separate size (x ∷ xs) = All (λ y. (x + size ≤ y) ⊎ (y + size ≤ x)) xs × Separate size xs

-- The blocks marked in a slab are those that its client holds, and these lie apart in the buffer.
pub record Live (sb : SlabPartition) (live : List ℕ) : Type 0 where
  pub in_shape : IsSlab sb
  pub marked : (i : ℕ) → sb.in_use i ≡ holds i live
  pub apart : Separate sb.block_size live

All-holds : {P : ℕ → Type 0} (xs : List ℕ) → ((y : ℕ) → holds y xs ≡ true → P y) → All P xs
unfolding holds
All-holds [] h = tt
All-holds (x ∷ xs) h = (h x (ground arith), All-holds xs (λ y e. h y (ground arith)))

holds-without : (i j : ℕ) (xs : List ℕ) → holds j (without i xs) ≡ (not (i == j) && holds j xs)
unfolding holds without
holds-without i j [] = ground arith
holds-without i j (x ∷ xs) = ground (arith, holds-without i j xs)

All-without : (P : ℕ → Type 0) (i : ℕ) (xs : List ℕ) → All P xs → All P (without i xs)
unfolding without
All-without P i [] a = tt
All-without P i (x ∷ xs) (p, a) = elim (Bool-cases (i == x)) [
  | inl e ↦ rw e (All-without P i xs a)
  | inr e ↦ rw e (p, All-without P i xs a)
]

Separate-without : (size i : ℕ) (xs : List ℕ) → Separate size xs → Separate size (without i xs)
unfolding Separate without
Separate-without size i [] s = tt
Separate-without size i (x ∷ xs) (a, s) = elim (Bool-cases (i == x)) [
  | inl e ↦ rw e (Separate-without size i xs s)
  | inr e ↦ rw e (All-without _ i xs a, Separate-without size i xs s)
]

-- Of two different blocks in use one ends before the other starts.
blocks-apart :
    {sb : SlabPartition} (i j : ℕ)
    → IsSlab sb
    → sb.in_use i ≡ true
    → sb.in_use j ≡ true
    → i ≢ j
    → (i + sb.block_size ≤ j) ⊎ (j + sb.block_size ≤ i)
blocks-apart {sb} i j v hi hj ne = elim (Bool-cases (ltb i j)) [
  | inl lt ↦ inl (IsSlab-disjoint i j v hi hj (ltb→lt i j lt))
  | inr ge ↦ let le : j ≤ i = ltb→le i j ge in inr (IsSlab-disjoint j i v hj hi (grind (arith, ne)))
]

mark-Live :
    {sb : SlabPartition} {live : List ℕ} (i : ℕ)
    → sb.in_use i ≡ false
    → Live sb live
    → IsSlab (record sb { in_use = update sb.in_use i true })
    → Live (record sb { in_use = update sb.in_use i true }) (i ∷ live)
unfolding holds Separate
mark-Live {sb} {live} i free v w = record {
  in_shape = w;
  marked = λ j. ground (arith, v.marked j);
  apart = (
    All-holds live λ y e.
        let used : sb.in_use y ≡ true = v.marked y ∙ e in
        let differ : i ≢ y = λ p. absurd (cc) in
        blocks-apart i y w (update_self sb.in_use i true)
          (update_ne sb.in_use i y true differ ∙ used) differ,
    v.apart,
  );
}

-- The marks of a slab in which the block is free, once it is released.
released-marks :
    {sb : SlabPartition} {live : List ℕ} (i j : ℕ)
    → Live sb live
    → (ltb i slab_allocator_size && sb.in_use i) ≡ false
    → sb.in_use j ≡ holds j (without i live)
released-marks {sb} {live} i j v miss = elim (Bool-cases (sb.in_use i)) [
  | inl used ↦
      let inside : i < slab_allocator_size = omega (arith, (v.in_shape.aligned i used).1) in
      absurd (ground (arith, lt→ltb i slab_allocator_size inside))
  | inr free ↦ v.marked j ∙ sym (holds-without i j live ∙ ground (arith, v.marked i))
]

module _ (at : AllocationType) where
  slab_alloc-Live :
      (s : SlabAllocator) (live : List ℕ)
      → at ≢ count
      → Live (s (code at)) live
      → Live ((slab_alloc at s).1 (code at)) (gain (slab_alloc at s).0 live)
  slab_alloc-Live s live ne v = go (slab_alloc at s).0 (slab_alloc at s).1 p.0 p.1 q
    where
      p :
          FirstFit (s (code at)) 0 (slab_alloc at s).0
          × Granted at s (slab_alloc at s).0 (slab_alloc at s).1
      p = slab_alloc-FirstFit at s ne v.in_shape.sized

      q : IsSlab ((slab_alloc at s).1 (code at))
      q = slab_alloc-IsSlab at s ne v.in_shape

      go :
          (r : Scan) (t : SlabAllocator)
          → FirstFit (s (code at)) 0 r
          → Granted at s r t
          → IsSlab (t (code at))
          → Live (t (code at)) (gain r live)
      go (found i) t (fits, _) (g, _) q = rw g (mark-Live i fits.0 v (rw g at q))
      go exhausted t f g q = rw g v
      go unfinished t f g q = absurd f

  slab_free-Live :
      (p : Option ℕ) (s : SlabAllocator) (live : List ℕ)
      → Live (s (code at)) live
      → Live (slab_free p at s (code at)) (lose p live)
  unfolding slab_free
  slab_free-Live none s live v = v
  slab_free-Live (some i) s live v =
      elim (Bool-cases (ltb i slab_allocator_size && (s (code at)).in_use i)) [
        | inl hit ↦
            rw (hit, update_self s (code at) _)
              (record {
                in_shape = clear-IsSlab i v.in_shape;
                marked = λ j. ground (arith, holds-without i j live, v.marked j);
                apart = Separate-without (s (code at)).block_size i live v.apart;
              })
        | inr miss ↦ rw miss (record {
          in_shape = v.in_shape;
          marked = λ j. released-marks i j v miss;
          apart = Separate-without (s (code at)).block_size i live v.apart;
        })
      ]

  slab_free_others :
      (p : Option ℕ) (s : SlabAllocator) (n : ℕ) → n ≢ code at → slab_free p at s n ≡ s n
  unfolding slab_free
  slab_free_others none s n ne = refl
  slab_free_others (some i) s n ne = ground arith

  slab_alloc_others :
      (s : SlabAllocator) (n : ℕ)
      → at ≢ count
      → 0 < (s (code at)).block_size
      → n ≢ code at
      → (slab_alloc at s).1 n ≡ s n
  slab_alloc_others s n h sized ne = go (slab_alloc at s).0 (slab_alloc at s).1 p.0 p.1
    where
      p :
          FirstFit (s (code at)) 0 (slab_alloc at s).0
          × Granted at s (slab_alloc at s).0 (slab_alloc at s).1
      p = slab_alloc-FirstFit at s h sized

      go :
          (r : Scan) (t : SlabAllocator) → FirstFit (s (code at)) 0 r → Granted at s r t → t n ≡ s n
      go (found i) t f (_, rest) = rest n ne
      go exhausted t f g = ap (λ u. u n) g
      go unfinished t f g = absurd f

  -- After any allocations and releases of one type, the blocks that its slab marks as used are those
  -- that the client was given and has not given back; they lie at multiples of the block size inside
  -- the buffer, no two of them overlap, and no other slab has changed. A release of a null pointer or
  -- of a block that is not held changes nothing. At the start the client holds the blocks in use.
  pub run_calls-Live :
      (cs : List Call) (s : SlabAllocator) (live : List ℕ)
      → at ≢ count
      → Live (s (code at)) live
      → let (t, live') = run_calls at cs s live in
        Live (t (code at)) live' × ((n : ℕ) → n ≢ code at → t n ≡ s n)
  unfolding run_calls
  run_calls-Live [] s live ne v = (v, λ n other. refl)
  run_calls-Live (allocate ∷ cs) s live ne v =
      let (w, others) =
        run_calls-Live cs (slab_alloc at s).1 (gain (slab_alloc at s).0 live) ne
          (slab_alloc-Live s live ne v) in
      (w, λ n other. others n other ∙ slab_alloc_others s n ne v.in_shape.sized other)
  run_calls-Live (release p ∷ cs) s live ne v =
      let (w, others) =
        run_calls-Live cs (slab_free p at s) (lose p live) ne (slab_free-Live p s live v) in
      (w, λ n other. others n other ∙ slab_free_others p s n other)
