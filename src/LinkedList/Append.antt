-- ===== src/LinkedList/Append.antt =====
-- Nodes put in at either end.
use mathlib.Core.Path.{subst}
use choochoo_os.Base.{
  ℕ, ◌+◌, ◌≡◌, ◌≢◌, refl, true, false, sym, ◌∙◌, Option, some, ◌==◌, ne→==, update, update_self,
  update_ne, List, [], ◌∷◌, ◌++◌, length, length-append, arith,
}
use choochoo_os.LinkedList.{Heap, LList, create_node, llist_append, llist_append_front}
use choochoo_os.LinkedList.Chain.{
  Cell, first, last, Chain, Absent, Distinct, Agree, Chain-Agree, Agree-next, Agree-prev,
  Absent-last, Chain-set_end, Chain-set_front, Chain-append,
}

-- The list holds the cells, in order: its ends and its length are theirs.
pub record Holds (h : Heap) (l : LList) (cs : List Cell) : Type 0 where
  pub head : l.head ≡ first cs 0
  pub tail : l.tail ≡ last 0 cs
  pub counted : l.length ≡ length cs
  pub linked : Chain h 0 cs 0
  pub distinct : Distinct cs

pub last-append :
    (before : ℕ) (xs : List Cell) (c : Cell) (ys : List Cell)
    → last before (xs ++ c ∷ ys) ≡ last c.0 ys
last-append before [] c ys = refl
last-append before ((n, _) ∷ xs) c ys = last-append n xs c ys

Distinct-snoc :
    (cs : List Cell) (n x : ℕ) → Distinct cs → Absent n cs → Distinct (cs ++ (n, x) ∷ [])
Distinct-snoc [] n x d a = (tt, tt)
Distinct-snoc ((k, y) ∷ cs) n x (b, d) (ne, a) = (absent cs b, Distinct-snoc cs n x d a)
  where
    absent : (cs : List Cell) → Absent k cs → Absent k (cs ++ (n, x) ∷ [])
    absent [] b = ((λ e. ne (sym e)), tt)
    absent (c ∷ cs) (e, b) = (e, absent cs b)

-- A node written by create_node, and the others as they were.
Agree-create :
    (node item : ℕ) (h : Heap) (cs : List Cell)
    → node ≢ 0
    → Absent node cs
    → Agree h (create_node node item h) cs
Agree-create node item h [] z a = tt
Agree-create node item h ((k, _) ∷ cs) z (ne, a) =
    let live = ne→== node 0 z in
    (
      rw live (update_ne h.item node k item ne),
      rw live (update_ne h.prev node k 0 ne),
      rw live (update_ne h.next node k 0 ne),
      Agree-create node item h cs z a,
    )

pub last_live :
    (h : Heap) (before end n x : ℕ) (cs : List Cell)
    → Chain h before ((n, x) ∷ cs) end
    → last n cs ≢ 0
last_live h before end n x [] c = c.0
last_live h before end n x ((k, y) ∷ cs) (z, e, f, g, c) = last_live h n end k y cs c

-- What an insertion comes to.
abbrev pub Inserted : List Cell → Option (Heap × LList) → Type 0
Inserted cs result = (h' : Heap) × (l' : LList) × (result ≡ some (h', l')) × Holds h' l' cs

module _ (node item : ℕ) (h : Heap) (l : LList) (live : node ≢ 0) where
  created : (create_node node item h).item node ≡ item
  created = rw (ne→== node 0 live) (update_self h.item node item)

  created_next : (create_node node item h).next node ≡ 0
  created_next = rw (ne→== node 0 live) (update_self h.next node 0)

  created_prev : (create_node node item h).prev node ≡ 0
  created_prev = rw (ne→== node 0 live) (update_self h.prev node 0)

  alone-Holds :
      Holds
        (create_node node item h)
        (record { head = node; tail = node; length = 1 })
        ((node, item) ∷ [])
  alone-Holds = record {
    head = refl;
    tail = refl;
    counted = refl;
    linked = (live, created, created_prev, created_next, tt);
    distinct = (tt, tt);
  }

  -- Appending to a list puts the item behind all others.
  pub llist_append-Holds :
      (cs : List Cell)
      → Holds h l cs
      → Absent node cs
      → Inserted (cs ++ (node, item) ∷ []) (llist_append node item h l)
  unfolding llist_append
  llist_append-Holds [] v a =
      let empty : (l.tail == 0) ≡ true = rw v.tail refl in
      let count = v.counted in
      (
        create_node node item h,
        record { head = node; tail = node; length = l.length + 1 },
        rw (llist_append, empty) refl,
        rw count alone-Holds,
      )
  llist_append-Holds ((n, x) ∷ cs) v a =
      let cells : List Cell = (n, x) ∷ cs in
      let full : (l.tail == 0) ≡ false =
        ne→== l.tail 0 (λ e. last_live h 0 0 n x cs v.linked (sym v.tail ∙ e)) in
      let apart : l.tail ≢ node = λ e. Absent-last node n x cs a (sym e ∙ v.tail) in
      let h1 = create_node node item h in
      let h2 : Heap = record h1 { prev = update h1.prev node l.tail } in
      let h3 : Heap = record h2 { next = update h2.next l.tail node } in
      let l3 : LList = record l { tail = node; length = l.length + 1 } in
      let c1 = Chain-Agree h h1 0 0 cells (Agree-create node item h cells live a) v.linked in
      let c2 = Chain-Agree h1 h2 0 0 cells (Agree-prev h1 node l.tail cells a) c1 in
      let c3 : Chain h3 0 cells node =
        subst (λ t. Chain (record h2 { next = update h2.next t node }) 0 cells node) (sym v.tail)
          (Chain-set_end h2 0 0 node n x cs v.distinct c2) in
      let new : Chain h3 (last 0 cells) ((node, item) ∷ []) 0 = (
        live,
        created,
        update_self h1.prev node l.tail ∙ v.tail,
        update_ne h1.next l.tail node node apart ∙ created_next,
        tt,
      ) in
      (
        h3,
        l3,
        rw (llist_append, full, ne→== node 0 live) refl,
        record {
          head = v.head;
          tail = sym (last-append 0 cells (node, item) []);
          counted =
              let k = length-append cells ((node, item) ∷ []) in
              let m = v.counted in omega (arith, k, m);
          linked = Chain-append h3 0 0 cells ((node, item) ∷ []) c3 new;
          distinct = Distinct-snoc cells node item v.distinct a;
        },
      )

  -- Putting in at the front puts the item before all others.
  pub llist_append_front-Holds :
      (cs : List Cell)
      → Holds h l cs
      → Absent node cs
      → Inserted ((node, item) ∷ cs) (llist_append_front node item h l)
  unfolding llist_append_front
  llist_append_front-Holds [] v a =
      let empty : (l.head == 0) ≡ true = rw v.head refl in
      let count = v.counted in
      (
        create_node node item h,
        record { head = node; tail = node; length = l.length + 1 },
        rw (llist_append_front, empty) refl,
        rw count alone-Holds,
      )
  llist_append_front-Holds ((n, x) ∷ cs) v a =
      let cells : List Cell = (n, x) ∷ cs in
      let full : (l.head == 0) ≡ false = ne→== l.head 0 (λ e. v.linked.0 (sym v.head ∙ e)) in
      let apart : l.head ≢ node = λ e. a.0 (sym e ∙ v.head) in
      let h1 = create_node node item h in
      let h2 : Heap = record h1 { next = update h1.next node l.head } in
      let h3 : Heap = record h2 { prev = update h2.prev l.head node } in
      let l3 : LList = record l { head = node; length = l.length + 1 } in
      let c1 = Chain-Agree h h1 0 0 cells (Agree-create node item h cells live a) v.linked in
      let c2 = Chain-Agree h1 h2 0 0 cells (Agree-next h1 node l.head cells a) c1 in
      let c3 : Chain h3 node cells 0 =
        subst (λ t. Chain (record h2 { prev = update h2.prev t node }) node cells 0) (sym v.head)
          (Chain-set_front h2 0 0 node n x cs v.distinct c2) in
      (
        h3,
        l3,
        rw (llist_append_front, full, ne→== node 0 live) refl,
        record {
          head = refl;
          tail = v.tail;
          counted = let m = v.counted in omega (arith, m);
          linked = (
            live,
            created,
            update_ne h1.prev l.head node node apart ∙ created_prev,
            update_self h1.next node l.head ∙ v.head,
            c3,
          );
          distinct = (a, v.distinct);
        },
      )
