-- ===== src/LinkedList/Tests.antt =====
-- A list of two items, built from nothing, and taken apart.
use choochoo_os.Base.{refl, List, [], ◌∷◌, ◌==◌, if◌then◌else◌, arith}
use choochoo_os.LinkedList.{Heap, LList, llist_remove_item}
use choochoo_os.LinkedList.Chain.{Cell}
use choochoo_os.LinkedList.Append.{Holds}
use choochoo_os.LinkedList.Search.{Removed, llist_remove_item-Removed}

-- Node 16 with item 70 before node 48 with item 90.
abbrev heap : Heap
heap = record {
  item = λ a. if a == 16 then 70 else 90;
  next = λ a. if a == 16 then 48 else 0;
  prev = λ a. if a == 48 then 16 else 0;
}

abbrev two : LList
two = record { head = 16; tail = 48; length = 2 }

abbrev cells : List Cell
cells = (16, 70) ∷ (48, 90) ∷ []

two-Holds : Holds heap two cells
two-Holds = record {
  head = refl;
  tail = refl;
  counted = refl;
  linked = (omega arith, refl, refl, refl, (omega arith, refl, refl, refl, tt));
  distinct = ((omega arith, tt), (tt, tt));
}

llist_remove_item-Removed_example : Removed ((16, 70) ∷ []) (llist_remove_item 3 90 heap two)
llist_remove_item-Removed_example =
    llist_remove_item-Removed 3 90 heap two ((16, 70) ∷ []) 48 [] two-Holds (refl, tt) (omega arith)
