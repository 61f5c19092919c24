-- ===== src/LinkedList/Search.antt =====
-- llist_remove_item and llist_pop_front: the list without the first cell that has the item.
use mathlib.Core.Path.{subst}
use choochoo_os.Base.{
  ℕ, zero, suc, ◌-◌, ◌<◌, ◌≡◌, refl, sym, ap, ◌∙◌, Bool, true, false, Option, some, ◌==◌, ne→==,
  ==_refl, update, List, [], ◌∷◌, ◌++◌, length, length-append, All, arith,
}
use choochoo_os.LinkedList.{
  Heap, LList, find_node, bypass_next, bypass_prev, llist_remove_item, llist_pop_front,
}
use choochoo_os.LinkedList.Chain.{Cell, first, last, Chain, Distinct, Chain-set_front, Chain-split}
use choochoo_os.LinkedList.Append.{Holds, last-append}
use choochoo_os.LinkedList.Remove.{
  Halves, bypass_next-Bypassed, bypass_prev-Whole, length-bypass_prev, first-append,
}

-- The loop stops at the first cell with the item, or past the end.
abbrev pub Lacks : ℕ → List Cell → Type 0
Lacks item cs = All (λ c. (c.1 == item) ≡ false) cs

find_node-found :
    (fuel item : ℕ) (h : Heap) (before end : ℕ) (xs : List Cell) (node : ℕ) (ys : List Cell)
    → Chain h before (xs ++ (node, item) ∷ ys) end
    → Lacks item xs
    → length xs < fuel
    → find_node fuel item h (first (xs ++ (node, item) ∷ ys) end) ≡ some node
unfolding find_node
find_node-found zero item h before end xs node ys c a lt = absurd (omega arith)
find_node-found (suc fuel) item h before end [] node ys c a lt =
    let hit : (h.item node == item) ≡ true = rw c.1 (==_refl item) in
    rw (find_node, ne→== node 0 c.0, hit) refl
find_node-found (suc fuel) item h before end ((n, x) ∷ xs) node ys (z, e, f, g, c) (other, a) lt =
    let miss : (h.item n == item) ≡ false = rw e other in
    rw (find_node, ne→== n 0 z, miss, g)
      (find_node-found fuel item h n end xs node ys c a (omega arith))

find_node-missing :
    (fuel item : ℕ) (h : Heap) (before : ℕ) (cs : List Cell)
    → Chain h before cs 0
    → Lacks item cs
    → length cs < fuel
    → find_node fuel item h (first cs 0) ≡ some 0
unfolding find_node
find_node-missing zero item h before cs c a lt = absurd (omega arith)
find_node-missing (suc fuel) item h before [] c a lt = refl
find_node-missing (suc fuel) item h before ((n, x) ∷ cs) (z, e, f, g, c) (other, a) lt =
    let miss : (h.item n == item) ≡ false = rw e other in
    rw (find_node, ne→== n 0 z, miss, g) (find_node-missing fuel item h n cs c a (omega arith))

-- What a removal comes to.
abbrev pub Removed : List Cell → Option (Bool × (Heap × LList)) → Type 0
Removed cs result = (h' : Heap) × (l' : LList) × (result ≡ some (true, (h', l'))) × Holds h' l' cs

module _ (fuel item : ℕ) (h : Heap) (l : LList) where
  halves :
      (xs : List Cell) (node : ℕ) (ys : List Cell)
      → Holds h l (xs ++ (node, item) ∷ ys)
      → Halves h l xs node item ys
  halves xs node ys v =
      let (left, (z, e, p, n, right)) = Chain-split h 0 0 xs ((node, item) ∷ ys) v.linked in
      record {
        head = v.head ∙ first-append xs ((node, item) ∷ ys) 0;
        tail = v.tail ∙ last-append 0 xs (node, item) ys;
        left = left;
        right = right;
        prev = p;
        next = n;
        distinct = v.distinct;
      }

  -- An item of the list is taken out where it stands first, and the list holds all other cells in order.
  pub llist_remove_item-Removed :
      (xs : List Cell) (node : ℕ) (ys : List Cell)
      → Holds h l (xs ++ (node, item) ∷ ys)
      → Lacks item xs
      → l.length < fuel
      → Removed (xs ++ ys) (llist_remove_item fuel item h l)
  unfolding llist_remove_item
  llist_remove_item-Removed xs node ys v lacks lt =
      let cells = xs ++ (node, item) ∷ ys in
      let m = v.counted in
      let k = length-append xs ((node, item) ∷ ys) in
      let j = length-append xs ys in
      let live = (Chain-split h 0 0 xs ((node, item) ∷ ys) v.linked).1.0 in
      let found =
        ap (find_node fuel item h) v.head
        ∙ find_node-found fuel item h 0 0 xs node ys v.linked lacks (omega (arith, m, k)) in
      let (h1, l1) = bypass_next node h l in
      let (by, same) = bypass_next-Bypassed node item l ys h xs (halves xs node ys v) in
      let (h2, l2) = bypass_prev node h1 l1 in
      let kept = length-bypass_prev node h1 l1 in
      (
        h2,
        record l2 { length = l2.length - 1 },
        rw (llist_remove_item, found, ne→== node 0 live) refl,
        bypass_prev-Whole node item l1 h1 xs ys v.distinct by (l2.length - 1)
            (omega (arith, m, k, j, same, kept)),
      )

  -- Without the item in it the list is as it was.
  pub llist_remove_item-missing :
      (cs : List Cell)
      → Holds h l cs
      → Lacks item cs
      → l.length < fuel
      → llist_remove_item fuel item h l ≡ some (false, (h, l))
  unfolding llist_remove_item
  llist_remove_item-missing cs v lacks lt =
      let m = v.counted in
      let found =
        ap (find_node fuel item h) v.head
        ∙ find_node-missing fuel item h 0 cs v.linked lacks (omega (arith, m)) in
      rw (llist_remove_item, found) refl

abbrev pub Popped : ℕ → List Cell → ℕ × (Heap × LList) → Type 0
Popped x cs (taken, (h, l)) = (taken ≡ x) × Holds h l cs

pop_front_at :
    (h : Heap) (n t count x : ℕ) (cs : List Cell)
    → t ≡ last n cs
    → count ≡ suc (length cs)
    → Chain h 0 ((n, x) ∷ cs) 0
    → Distinct ((n, x) ∷ cs)
    → Popped x cs (llist_pop_front h (record { head = n; tail = t; length = count }))
unfolding llist_pop_front
pop_front_at h n t count x [] et ec (z, e, f, g, c) d =
    let at_end : (h.next n == 0) ≡ true = rw g refl in
    rw (llist_pop_front, ne→== n 0 z, at_end)
      (e, record { head = g; tail = refl; counted = omega (arith, ec); linked = tt; distinct = tt })
pop_front_at h n t count x ((k, y) ∷ cs) et ec (z, e, f, g, c) (a, d) =
    let more : (h.next n == 0) ≡ false = ne→== (h.next n) 0 (λ q. c.0 (sym g ∙ q)) in
    let rest : Popped x ((k, y) ∷ cs) (
      h.item n,
      (record h { prev = update h.prev k 0 }, record { head = k; tail = t; length = count - 1 }),
    ) =
      (
        e,
        record {
          head = refl;
          tail = et;
          counted = omega (arith, ec);
          linked = Chain-set_front h n 0 0 k y cs d c;
          distinct = d;
        },
      ) in
    rw (llist_pop_front, ne→== n 0 z, more)
      (subst
        (λ j. Popped x ((k, y) ∷ cs) (
          h.item n,
          (
            record h { prev = update h.prev j 0 },
            record { head = j; tail = t; length = count - 1 },
          ),
        ))
        (sym g) rest)

-- What llist_pop_front takes is what stood first, and the list holds the rest.
pub llist_pop_front-Popped :
    (h : Heap) (l : LList) (n x : ℕ) (cs : List Cell)
    → Holds h l ((n, x) ∷ cs)
    → Popped x cs (llist_pop_front h l)
llist_pop_front-Popped h l n x cs v =
    subst
      (λ a. Popped x cs (llist_pop_front h (record { head = a; tail = l.tail; length = l.length })))
      (sym v.head) (pop_front_at h n l.tail l.length x cs v.tail v.counted v.linked v.distinct)
