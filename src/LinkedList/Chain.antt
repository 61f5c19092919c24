-- ===== src/LinkedList/Chain.antt =====
-- A chain of nodes linked both ways.
use choochoo_os.Base.{
  ℕ, ◌≡◌, ◌≢◌, refl, sym, ◌∙◌, update, update_self, update_ne, List, [], ◌∷◌, ◌++◌,
}
use choochoo_os.LinkedList.{Heap}

-- A node and its item.
abbrev pub Cell : Type 0
Cell = ℕ × ℕ

-- The first node of a chain, or what stands behind it; the last, or what stands before it.
abbrev pub first : List Cell → ℕ → ℕ
first [] end = end
first ((n, _) ∷ cs) end = n

abbrev pub last : ℕ → List Cell → ℕ
last before [] = before
last before ((n, _) ∷ cs) = last n cs

-- The cells lie in the heap, linked both ways, between two pointers.
abbrev pub Chain : Heap → ℕ → List Cell → ℕ → Type 0
Chain h before [] end = Unit
Chain h before ((n, x) ∷ cs) end =
    (n ≢ 0) × (h.item n ≡ x) × (h.prev n ≡ before) × (h.next n ≡ first cs end) × Chain h n cs end

abbrev pub Absent : ℕ → List Cell → Type 0
Absent n [] = Unit
Absent n ((k, _) ∷ cs) = (n ≢ k) × Absent n cs

abbrev pub Distinct : List Cell → Type 0
Distinct [] = Unit
Distinct ((n, _) ∷ cs) = Absent n cs × Distinct cs

-- The two heaps have the same node at an address.
abbrev pub Agree : Heap → Heap → List Cell → Type 0
Agree h h' [] = Unit
Agree h h' ((n, _) ∷ cs) =
    (h'.item n ≡ h.item n) × (h'.prev n ≡ h.prev n) × (h'.next n ≡ h.next n) × Agree h h' cs

pub Chain-Agree :
    (h h' : Heap) (before end : ℕ) (cs : List Cell)
    → Agree h h' cs
    → Chain h before cs end
    → Chain h' before cs end
Chain-Agree h h' before end [] a c = tt
Chain-Agree h h' before end ((n, x) ∷ cs) (d, p, k, a) (z, e, f, g, c) =
    (z, d ∙ e, p ∙ f, k ∙ g, Chain-Agree h h' n end cs a c)

-- A write to a node that is in no cell.
pub Agree-next :
    (h : Heap) (n v : ℕ) (cs : List Cell)
    → Absent n cs
    → Agree h (record h { next = update h.next n v }) cs
Agree-next h n v [] a = tt
Agree-next h n v ((k, _) ∷ cs) (ne, a) =
    (refl, refl, update_ne h.next n k v ne, Agree-next h n v cs a)

pub Agree-prev :
    (h : Heap) (n v : ℕ) (cs : List Cell)
    → Absent n cs
    → Agree h (record h { prev = update h.prev n v }) cs
Agree-prev h n v [] a = tt
Agree-prev h n v ((k, _) ∷ cs) (ne, a) =
    (refl, update_ne h.prev n k v ne, refl, Agree-prev h n v cs a)

pub Absent-last : (n k x : ℕ) (cs : List Cell) → Absent n ((k, x) ∷ cs) → n ≢ last k cs
Absent-last n k x [] a = a.0
Absent-last n k x ((j, y) ∷ cs) a = Absent-last n j y cs a.1

-- The last node of a chain made to point elsewhere.
pub Chain-set_end :
    (h : Heap) (before end v n x : ℕ) (cs : List Cell)
    → Distinct ((n, x) ∷ cs)
    → Chain h before ((n, x) ∷ cs) end
    → Chain (record h { next = update h.next (last n cs) v }) before ((n, x) ∷ cs) v
Chain-set_end h before end v n x [] d (z, e, f, g, c) = (z, e, f, update_self h.next n v, tt)
Chain-set_end h before end v n x ((k, y) ∷ cs) (a, d) (z, e, f, g, c) = (
  z,
  e,
  f,
  update_ne h.next (last k cs) n v (λ q. Absent-last n k y cs a (sym q)) ∙ g,
  Chain-set_end h n end v k y cs d c,
)

-- The first node of a chain made to point back elsewhere.
pub Chain-set_front :
    (h : Heap) (before end v n x : ℕ) (cs : List Cell)
    → Distinct ((n, x) ∷ cs)
    → Chain h before ((n, x) ∷ cs) end
    → Chain (record h { prev = update h.prev n v }) v ((n, x) ∷ cs) end
Chain-set_front h before end v n x cs (a, d) (z, e, f, g, c) = (
  z,
  e,
  update_self h.prev n v,
  g,
  Chain-Agree h (record h { prev = update h.prev n v }) n end cs (Agree-prev h n v cs a) c,
)

-- Two chains in a row are one.
pub Chain-split :
    (h : Heap) (before end : ℕ) (xs ys : List Cell)
    → Chain h before (xs ++ ys) end
    → Chain h before xs (first ys end) × Chain h (last before xs) ys end
Chain-split h before end [] ys c = (tt, c)
Chain-split h before end ((n, x) ∷ xs) ys (z, e, f, g, c) =
    let (a, b) = Chain-split h n end xs ys c in ((z, e, f, g ∙ first-append xs ys end, a), b)
  where
    first-append : (xs ys : List Cell) (end : ℕ) → first (xs ++ ys) end ≡ first xs (first ys end)
    first-append [] ys end = refl
    first-append (_ ∷ xs) ys end = refl

pub Chain-append :
    (h : Heap) (before end : ℕ) (xs ys : List Cell)
    → Chain h before xs (first ys end)
    → Chain h (last before xs) ys end
    → Chain h before (xs ++ ys) end
Chain-append h before end [] ys a b = b
Chain-append h before end ((n, x) ∷ xs) ys (z, e, f, g, a) b =
    (z, e, f, g ∙ first-append xs ys end, Chain-append h n end xs ys a b)
  where
    first-append : (xs ys : List Cell) (end : ℕ) → first xs (first ys end) ≡ first (xs ++ ys) end
    first-append [] ys end = refl
    first-append (_ ∷ xs) ys end = refl
