-- ===== src/Kern/Kalloc.antt =====
-- kern/kalloc.c and kern/kalloc.h: one slab of equal blocks for each type of object.
-- A pointer is the offset of its block in the slab's buffer. The fields `cursor` and `allocated` of
-- the source's partition are never read or written.
pub mod Alloc
pub mod Blocks
pub mod Live
mod Tests
use choochoo_os.Base.{
  ℕ, zero, suc, ◌+◌, Bool, true, false, not, ◌&&◌, Option, none, some, ltb, ◌==◌, if◌then◌else◌,
  update,
}

pub data AllocationType : Type 0 where
  task switch_frame scheduler_node send_state receive_state llist llist_node llist_iterator :
      AllocationType
  hashmap hashmap_buckets hashmap_node rps_state string clk_buffer_request : AllocationType
  snsr_buffer_request swch_buffer_request zn_buffer_request count : AllocationType

-- the enumeration's numbers
abbrev pub code : AllocationType → ℕ
code task = 0
code switch_frame = 1
code scheduler_node = 2
code send_state = 3
code receive_state = 4
code llist = 5
code llist_node = 6
code llist_iterator = 7
code hashmap = 8
code hashmap_buckets = 9
code hashmap_node = 10
code rps_state = 11
code string = 12
code clk_buffer_request = 13
code snsr_buffer_request = 14
code swch_buffer_request = 15
code zn_buffer_request = 16
code count = 17

abbrev pub slab_allocator_size : ℕ
slab_allocator_size = 40906

pub record SlabPartition : Type 0 where
  pub block_size : ℕ
  pub in_use : ℕ → Bool

-- the partitions by the number of their type
abbrev pub SlabAllocator : Type 0
SlabAllocator = ℕ → SlabPartition

-- What a call of `slab_alloc` gives: a block, the null pointer, or a loop that never ends.
pub data Scan : Type 0 where
  found : ℕ → Scan
  exhausted : Scan
  unfinished : Scan

unfoldable pub slab_init : SlabAllocator
slab_init at = record { block_size = 0; in_use = λ _. false }

unfoldable pub slab_set_block_size : AllocationType → ℕ → SlabAllocator → SlabAllocator
slab_set_block_size at size s =
    if code at == code count
    then s
    else update s (code at) (record (s (code at)) { block_size = size })

-- The `for` loop from offset `i` on, over at most `fuel` blocks.
unfoldable pub scan_blocks : ℕ → SlabPartition → ℕ → Scan
scan_blocks zero sb i = unfinished
scan_blocks (suc fuel) sb i =
    let next = scan_blocks fuel sb (i + sb.block_size) in
    if ltb i slab_allocator_size
    then if not (sb.in_use i) && ltb (i + sb.block_size) slab_allocator_size then found i else next
    else exhausted

abbrev pub take_block : AllocationType → SlabAllocator → Scan → Scan × SlabAllocator
take_block at s (found i) = (
  found i,
  update s (code at) (record (s (code at)) { in_use = update (s (code at)).in_use i true }),
)
take_block at s exhausted = (exhausted, s)
take_block at s unfinished = (unfinished, s)

unfoldable pub slab_alloc : AllocationType → SlabAllocator → Scan × SlabAllocator
slab_alloc at s =
    if code at == code count
    then (exhausted, s)
    else take_block at s (scan_blocks (suc slab_allocator_size) (s (code at)) 0)

-- A null pointer lies outside every buffer.
unfoldable pub slab_free : Option ℕ → AllocationType → SlabAllocator → SlabAllocator
slab_free none at s = s
slab_free (some offset) at s =
    if ltb offset slab_allocator_size && (s (code at)).in_use offset
    then update s (code at)
        (record (s (code at)) { in_use = update (s (code at)).in_use offset false })
    else s
