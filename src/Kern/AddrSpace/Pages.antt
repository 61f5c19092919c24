-- ===== src/Kern/AddrSpace/Pages.antt =====
-- Which page a creation takes and which one a deletion releases.
use choochoo_os.Base.{
  ℕ, zero, suc, ◌+◌, ◌-◌, ◌*◌, ◌/◌, ◌^◌, ◌%◌, ◌≤◌, ◌<◌, ◌≡◌, refl, true, false, Option, none, some,
  ltb, if◌then◌else◌, update, arith, Bool-cases, ◌==◌, ==→eq, ==→ne, inl, inr,
}
use choochoo_os.Kern.AddrSpace.{
  AddrSpace, PageTable, user_base, user_addrspace_size, page_count, addrspace_new, find_page,
  pagetable_createpage, pagetable_deletepage,
}

-- What a search of `left` pages from `i` on gives: the first free one, if there is one.
abbrev pub FirstFree : PageTable → ℕ → ℕ → Option ℕ → Type 0
FirstFree pt left i (some p) =
    (i ≤ p)
    × (p < i + left)
    × (pt.in_use p ≡ false)
    × ((q : ℕ) → i ≤ q → q < p → pt.in_use q ≡ true)
FirstFree pt left i none = (q : ℕ) → i ≤ q → q < i + left → pt.in_use q ≡ true

module _ (pt : PageTable) where
  FirstFree-step :
      (left i : ℕ) (r : Option ℕ)
      → pt.in_use i ≡ true
      → FirstFree pt left (i + 1) r
      → FirstFree pt (suc left) i r
  FirstFree-step left i none e h = λ q lo hi. elim (Bool-cases (i == q)) [
    | inl same ↦ rw (← ==→eq i q same) e
    | inr other ↦ let ne = ==→ne i q other in h q (omega arith) (omega arith)
  ]
  FirstFree-step left i (some p) e (lo, hi, free, before) = (
    omega arith,
    omega arith,
    free,
    λ q a b. elim (Bool-cases (i == q)) [
      | inl same ↦ rw (← ==→eq i q same) e
      | inr other ↦ let ne = ==→ne i q other in before q (omega arith) b
    ],
  )

  find_page-FirstFree : (left i : ℕ) → FirstFree pt left i (find_page left i pt)
  unfolding find_page
  find_page-FirstFree zero i = λ q lo hi. absurd (omega arith)
  find_page-FirstFree (suc left) i = elim (Bool-cases (pt.in_use i)) [
    | inl e ↦
        rw e
          (FirstFree-step left i (find_page left (i + 1) pt) e (find_page-FirstFree left (i + 1)))
    | inr e ↦ rw e (omega arith, omega arith, e, λ q lo hi. absurd (omega arith))
  ]

-- The address space of page `i`.
abbrev pub page : ℕ → AddrSpace
page i = record {
  base = user_base + user_addrspace_size * i;
  stackbase = user_base + user_addrspace_size * i + user_addrspace_size;
}

abbrev pub Created : PageTable → Option ℕ → Type 0
Created pt (some p) =
    pagetable_createpage pt ≡ (page p, record pt { in_use = update pt.in_use p true })
Created pt none = pagetable_createpage pt ≡ (record { base = 0; stackbase = 0 }, pt)

-- `pagetable_createpage` takes the first free page and marks it alone; the null address space
-- comes back only if all 1024 pages are in use, and then nothing changes.
pub pagetable_createpage-FirstFree :
    (pt : PageTable) → (r : Option ℕ) × FirstFree pt page_count 0 r × Created pt r
unfolding pagetable_createpage addrspace_new
pagetable_createpage-FirstFree pt = (
  find_page page_count 0 pt,
  find_page-FirstFree pt page_count 0,
  created (find_page page_count 0 pt) refl,
)
  where
    created : (r : Option ℕ) → find_page page_count 0 pt ≡ r → Created pt r
    created none e = rw (e, pagetable_createpage)
    created (some p) e = rw (e, pagetable_createpage)

-- Deleting the address space of page `i` clears the entry that lies as many places further on as
-- there are whole pages between the table and the user pages; past the end it writes outside.
pub pagetable_deletepage-page :
    (pt : PageTable) (i : ℕ)
    → pt.address ≤ user_base
    → i < page_count
    → let j = i + (user_base - pt.address) / user_addrspace_size in
      pagetable_deletepage (page i) pt
      ≡ (if ltb j page_count then some (record pt { in_use = update pt.in_use j false }) else none)
unfolding pagetable_deletepage
pagetable_deletepage-page pt i h l =
    let index : (user_base + user_addrspace_size * i + 2 ^ 64 - pt.address)
          % 2 ^ 64
          / user_addrspace_size
        ≡ i + (user_base - pt.address) / user_addrspace_size =
      omega arith in
    rw index
