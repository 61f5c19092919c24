-- ===== src/Kern/AddrSpace.antt =====
-- kern/addrspace.c and kern/addrspace.h: the pages that hold the stacks of user tasks.
pub mod Pages
use choochoo_os.Base.{
  ℕ, zero, suc, ◌+◌, ◌-◌, ◌*◌, ◌/◌, ◌%◌, ◌^◌, Bool, true, false, Option, none, some, ltb,
  if◌then◌else◌, update,
}

abbrev pub user_base : ℕ
user_base = 0x00220000

abbrev pub user_addrspace_size : ℕ
user_addrspace_size = 0x00010000

pub record AddrSpace : Type 0 where
  pub base : ℕ
  pub stackbase : ℕ

-- `in_use` has 1024 entries. `address` is where the linker put the table: the code computes with it.
pub record PageTable : Type 0 where
  pub in_use : ℕ → Bool
  pub address : ℕ

abbrev pub page_count : ℕ
page_count = 1024

unfoldable pub addrspace_new : ℕ → AddrSpace
addrspace_new base = record { base = base; stackbase = base + user_addrspace_size }

unfoldable pub pagetable_init : ℕ → PageTable
pagetable_init address = record { in_use = λ _. false; address = address }

-- The first free page from `i` on, of the `left` that remain.
unfoldable pub find_page : ℕ → ℕ → PageTable → Option ℕ
find_page zero i pt = none
find_page (suc left) i pt =
    let rest = find_page left (i + 1) pt in if pt.in_use i then rest else some i

unfoldable pub pagetable_createpage : PageTable → AddrSpace × PageTable
unfolding addrspace_new
pagetable_createpage pt = elim (find_page page_count 0 pt) [
  | none ↦ (record { base = 0; stackbase = 0 }, pt)
  | some i ↦ (
    addrspace_new (user_base + user_addrspace_size * i),
    record pt { in_use = update pt.in_use i true },
  )
]

-- The subtraction is one of `uint64_t`. `none` is a write outside the table.
unfoldable pub pagetable_deletepage : AddrSpace → PageTable → Option PageTable
pagetable_deletepage space pt =
    let index = (space.base + 2 ^ 64 - pt.address) % 2 ^ 64 / user_addrspace_size in
    if ltb index page_count
    then some (record pt { in_use = update pt.in_use index false })
    else none
