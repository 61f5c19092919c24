-- ===== src/LinkedList.antt =====
-- lib/linked_list.c and linked_list.h: the doubly linked list on a heap of nodes. A pointer is the
-- address of a node, 0 is NULL. The address that `alloc` returns is an argument; a freed node is
-- no longer used, and what it held stays in the heap.
pub mod Chain
pub mod Append
pub mod Remove
pub mod Search
mod Tests
use choochoo_os.Base.{
  ℕ, zero, suc, ◌+◌, ◌-◌, Bool, true, false, not, Option, none, some, ◌==◌, if◌then◌else◌, update,
}

-- The three fields of every node; `item` is the field `data`.
pub record Heap : Type 0 where
  pub item : ℕ → ℕ
  pub next : ℕ → ℕ
  pub prev : ℕ → ℕ

pub record LList : Type 0 where
  pub head : ℕ
  pub tail : ℕ
  pub length : ℕ

abbrev pub llist_new : LList
llist_new = record { head = 0; tail = 0; length = 0 }

abbrev pub create_node : ℕ → ℕ → Heap → Heap
create_node node item h = if node == 0 then h else record {
  item = update h.item node item;
  next = update h.next node 0;
  prev = update h.prev node 0;
}

-- `none` is the use of a NULL that `alloc` returned.
unfoldable pub llist_append_front : ℕ → ℕ → Heap → LList → Option (Heap × LList)
llist_append_front node item h l =
    let h1 = create_node node item h in
    if l.head == 0
    then some (h1, record { head = node; tail = node; length = l.length + 1 })
    else if node == 0
    then none
    else some (
      record h1 { next = update h1.next node l.head; prev = update h1.prev l.head node },
      record l { head = node; length = l.length + 1 },
    )

unfoldable pub llist_append : ℕ → ℕ → Heap → LList → Option (Heap × LList)
llist_append node item h l =
    let h1 = create_node node item h in
    if l.tail == 0
    then some (h1, record { head = node; tail = node; length = l.length + 1 })
    else if node == 0
    then none
    else some (
      record h1 { prev = update h1.prev node l.tail; next = update h1.next l.tail node },
      record l { tail = node; length = l.length + 1 },
    )

unfoldable pub llist_pop_front : Heap → LList → ℕ × (Heap × LList)
llist_pop_front h l =
    let head' = h.next l.head in
    if l.head == 0 then (0, (h, l)) else (
      h.item l.head,
      if head' == 0 then (h, record { head = head'; tail = 0; length = l.length - 1 }) else (
        record h { prev = update h.prev head' 0 },
        record l { head = head'; length = l.length - 1 },
      ),
    )

unfoldable pub llist_pop : Heap → LList → ℕ × (Heap × LList)
llist_pop h l =
    let tail' = h.prev l.tail in
    if l.tail == 0 then (0, (h, l)) else (
      h.item l.tail,
      if tail' == 0 then (h, record { head = 0; tail = tail'; length = l.length - 1 }) else (
        record h { next = update h.next tail' 0 },
        record l { tail = tail'; length = l.length - 1 },
      ),
    )

abbrev pub llist_front : Heap → LList → ℕ
llist_front h l = if l.head == 0 then 0 else h.item l.head

abbrev pub llist_back : Heap → LList → ℕ
llist_back h l = if l.tail == 0 then 0 else h.item l.tail

-- The loop of llist_remove_item: the first node with the item, 0 past the end. `none` is fuel that ran out.
unfoldable pub find_node : ℕ → ℕ → Heap → ℕ → Option ℕ
find_node zero item h node = none
find_node (suc fuel) item h node =
    let rest = find_node fuel item h (h.next node) in
    if node == 0 then some 0 else if h.item node == item then some node else rest

-- Its body, at the node found.
unfoldable pub bypass_next : ℕ → Heap → LList → Heap × LList
bypass_next node h l =
    if h.prev node == 0
    then (h, record l { head = h.next node })
    else (record h { next = update h.next (h.prev node) (h.next node) }, l)

unfoldable pub bypass_prev : ℕ → Heap → LList → Heap × LList
bypass_prev node h l =
    if h.next node == 0
    then (h, record l { tail = h.prev node })
    else (record h { prev = update h.prev (h.next node) (h.prev node) }, l)

unfoldable pub llist_remove_item : ℕ → ℕ → Heap → LList → Option (Bool × (Heap × LList))
llist_remove_item fuel item h l =
    let found = find_node fuel item h l.head in
    elim found [
      | none ↦ none
      | some node ↦
          let (h1, l1) = bypass_next node h l in
          let (h2, l2) = bypass_prev node h1 l1 in
          if node == 0
          then some (false, (h, l))
          else some (true, (h2, record l2 { length = l2.length - 1 }))
    ]

abbrev pub llist_length : LList → ℕ
llist_length l = l.length

-- The iterator is the node that it stands at.
abbrev pub llist_iter : LList → ℕ
llist_iter l = l.head

-- The item, and the iterator moved on.
abbrev pub llist_next : Heap → ℕ → ℕ × ℕ
llist_next h it = if it == 0 then (0, it) else (h.item it, h.next it)

abbrev pub llist_prev : Heap → ℕ → Bool × ℕ
llist_prev h it =
    if it == 0 then (false, it) else if h.prev it == 0 then (false, it) else (true, h.prev it)
