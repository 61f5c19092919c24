-- ===== src/LinkedList/Remove.antt =====
-- A node taken out from between its neighbours, as the body of llist_remove_item does.
use mathlib.Core.Path.{subst}
use choochoo_os.Base.{
  ℕ, ◌≡◌, ◌≢◌, refl, sym, ap, ◌∙◌, true, false, ◌==◌, ne→==, update, update_ne, List, [], ◌∷◌, ◌++◌,
  length, append-nil, arith,
}
use choochoo_os.LinkedList.{Heap, LList, bypass_next, bypass_prev}
use choochoo_os.LinkedList.Chain.{
  Cell, first, last, Chain, Absent, Distinct, Chain-Agree, Agree-next, Agree-prev, Chain-set_end,
  Chain-set_front, Chain-append,
}
use choochoo_os.LinkedList.Append.{Holds, last-append, last_live}

-- The cells around one that is taken out.
pub Absent-append_left : (n : ℕ) (xs ys : List Cell) → Absent n (xs ++ ys) → Absent n xs
Absent-append_left n [] ys a = tt
Absent-append_left n (_ ∷ xs) ys a = (a.0, Absent-append_left n xs ys a.1)

Absent-append_right : (n : ℕ) (xs ys : List Cell) → Absent n (xs ++ ys) → Absent n ys
Absent-append_right n [] ys a = a
Absent-append_right n (_ ∷ xs) ys a = Absent-append_right n xs ys a.1

Absent-drop :
    (n : ℕ) (xs : List Cell) (c : Cell) (ys : List Cell)
    → Absent n (xs ++ c ∷ ys)
    → Absent n (xs ++ ys)
Absent-drop n [] c ys a = a.1
Absent-drop n (_ ∷ xs) c ys a = (a.0, Absent-drop n xs c ys a.1)

pub Distinct-left : (xs ys : List Cell) → Distinct (xs ++ ys) → Distinct xs
Distinct-left [] ys d = tt
Distinct-left ((n, _) ∷ xs) ys d = (Absent-append_left n xs ys d.0, Distinct-left xs ys d.1)

Distinct-right : (xs ys : List Cell) → Distinct (xs ++ ys) → Distinct ys
Distinct-right [] ys d = d
Distinct-right (_ ∷ xs) ys d = Distinct-right xs ys d.1

Distinct-drop :
    (xs : List Cell) (c : Cell) (ys : List Cell) → Distinct (xs ++ c ∷ ys) → Distinct (xs ++ ys)
Distinct-drop [] c ys d = d.1
Distinct-drop ((n, _) ∷ xs) c ys d = (Absent-drop n xs c ys d.0, Distinct-drop xs c ys d.1)

-- The last of the cells in front is not behind, and the first of those behind is not in front.
Absent-last_left :
    (n x : ℕ) (xs ys : List Cell) → Distinct (((n, x) ∷ xs) ++ ys) → Absent (last n xs) ys
Absent-last_left n x [] ys d = d.0
Absent-last_left n x ((k, y) ∷ xs) ys d = Absent-last_left k y xs ys d.1

Absent-first_right :
    (xs : List Cell) (n x : ℕ) (ys : List Cell) → Distinct (xs ++ (n, x) ∷ ys) → Absent n xs
Absent-first_right [] n x ys d = tt
Absent-first_right ((k, _) ∷ xs) n x ys d =
    ((λ e. apart xs d.0 (sym e)), Absent-first_right xs n x ys d.1)
  where
    apart : (xs : List Cell) → Absent k (xs ++ (n, x) ∷ ys) → k ≢ n
    apart [] a = a.0
    apart (_ ∷ xs) a = apart xs a.1

-- The two halves of a chain around a node, with what the node and the list say.
pub record Halves (h : Heap) (l : LList) (xs : List Cell) (node item : ℕ) (ys : List Cell)
    : Type 0 where
  pub head : l.head ≡ first xs node
  pub tail : l.tail ≡ last node ys
  pub left : Chain h 0 xs node
  pub right : Chain h node ys 0
  pub prev : h.prev node ≡ last 0 xs
  pub next : h.next node ≡ first ys 0
  pub distinct : Distinct (xs ++ (node, item) ∷ ys)

-- After the first half of the body the nodes in front lead past the node.
pub record Bypassed (h : Heap) (l : LList) (xs : List Cell) (node item : ℕ) (ys : List Cell)
    : Type 0 where
  pub head : l.head ≡ first xs (first ys 0)
  pub tail : l.tail ≡ last node ys
  pub left : Chain h 0 xs (first ys 0)
  pub right : Chain h node ys 0
  pub prev : h.prev node ≡ last 0 xs
  pub next : h.next node ≡ first ys 0

module _ (node item : ℕ) (l : LList) (ys : List Cell) where
  pub bypass_next-Bypassed :
      (h : Heap) (xs : List Cell)
      → Halves h l xs node item ys
      → let (h', l') = bypass_next node h l in
        Bypassed h' l' xs node item ys × (l'.length ≡ l.length)
  unfolding bypass_next
  bypass_next-Bypassed h [] v =
      let at_front : (h.prev node == 0) ≡ true = rw v.prev refl in
      rw (bypass_next, at_front)
        (
          record {
            head = v.next;
            tail = v.tail;
            left = tt;
            right = v.right;
            prev = v.prev;
            next = v.next;
          },
          refl,
        )
  bypass_next-Bypassed h ((n, x) ∷ xs) v =
      let linked : (h.prev node == 0) ≡ false =
        ne→== (h.prev node) 0 (λ e. last_live h 0 node n x xs v.left (sym v.prev ∙ e)) in
      let front : List Cell = (n, x) ∷ xs in
      let away = Absent-last_left n x xs ((node, item) ∷ ys) v.distinct in
      let redirected = λ (t e : ℕ). record h { next = update h.next t e } in
      let left : Chain (redirected (last n xs) (first ys 0)) 0 front (first ys 0) =
        Chain-set_end h 0 node (first ys 0) n x xs
          (Distinct-left front ((node, item) ∷ ys) v.distinct) v.left in
      let right : Chain (redirected (last n xs) (first ys 0)) node ys 0 =
        Chain-Agree h (redirected (last n xs) (first ys 0)) node 0 ys
          (Agree-next h (last n xs) (first ys 0) ys away.1) v.right in
      let moved : Bypassed (redirected (last n xs) (first ys 0)) l front node item ys = record {
        head = v.head;
        tail = v.tail;
        left = left;
        right = right;
        prev = v.prev;
        next = update_ne h.next (last n xs) node (first ys 0) away.0 ∙ v.next;
      } in
      rw (bypass_next, linked)
        (
          subst (λ t. Bypassed (redirected t (h.next node)) l front node item ys) (sym v.prev)
              (subst (λ e. Bypassed (redirected (last n xs) e) l front node item ys) (sym v.next)
                moved),
          refl,
        )

pub first-append : (xs ys : List Cell) (end : ℕ) → first (xs ++ ys) end ≡ first xs (first ys end)
first-append [] ys end = refl
first-append (_ ∷ xs) ys end = refl

-- The list is whole: the two lists of cells, one behind the other.
abbrev pub Whole : List Cell → Heap × LList → Type 0
Whole cs (h, l) = (count : ℕ) → count ≡ length cs → Holds h (record l { length = count }) cs

module _ (node item : ℕ) (l : LList) (h : Heap) (xs : List Cell) where
  pub bypass_prev-Whole :
      (ys : List Cell)
      → Distinct (xs ++ (node, item) ∷ ys)
      → Bypassed h l xs node item ys
      → Whole (xs ++ ys) (bypass_prev node h l)
  unfolding bypass_prev
  bypass_prev-Whole [] d v =
      let at_end : (h.next node == 0) ≡ true = rw v.next refl in
      rw (bypass_prev, at_end)
        (λ count e. record {
          head = v.head ∙ sym (first-append xs [] 0);
          tail = v.prev ∙ ap (last 0) (sym (append-nil xs));
          counted = e;
          linked = Chain-append h 0 0 xs [] v.left tt;
          distinct = Distinct-drop xs (node, item) [] d;
        })
  bypass_prev-Whole ((k, y) ∷ ys) d v =
      let linked : (h.next node == 0) ≡ false =
        ne→== (h.next node) 0 (λ e. v.right.0 (sym v.next ∙ e)) in
      let kept = Distinct-drop xs (node, item) ((k, y) ∷ ys) d in
      let redirected = λ (t e : ℕ). record h { prev = update h.prev t e } in
      let behind : Chain (redirected k (last 0 xs)) (last 0 xs) ((k, y) ∷ ys) 0 =
        Chain-set_front h node 0 (last 0 xs) k y ys (Distinct-right xs ((k, y) ∷ ys) kept)
          v.right in
      let front : Chain (redirected k (last 0 xs)) 0 xs k =
        Chain-Agree h (redirected k (last 0 xs)) 0 k xs
          (Agree-prev h k (last 0 xs) xs (Absent-first_right xs k y ys kept)) v.left in
      let whole : Whole (xs ++ (k, y) ∷ ys) (redirected k (last 0 xs), l) = λ count e. record {
        head = v.head ∙ sym (first-append xs ((k, y) ∷ ys) 0);
        tail = v.tail ∙ sym (last-append 0 xs (k, y) ys);
        counted = e;
        linked = Chain-append (redirected k (last 0 xs)) 0 0 xs ((k, y) ∷ ys) front behind;
        distinct = kept;
      } in
      rw (bypass_prev, linked)
        (subst (λ t. Whole (xs ++ (k, y) ∷ ys) (redirected t (h.prev node), l)) (sym v.next)
          (subst (λ e. Whole (xs ++ (k, y) ∷ ys) (redirected k e, l)) (sym v.prev) whole))

pub length-bypass_prev :
    (node : ℕ) (h : Heap) (l : LList) → (bypass_prev node h l).1.length ≡ l.length
unfolding bypass_prev
length-bypass_prev node h l = ground arith
