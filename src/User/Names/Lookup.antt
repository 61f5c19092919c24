-- ===== src/User/Names/Lookup.antt =====
-- What the name server answers after any messages.
use mathlib.Core.Path.{subst}
use choochoo_os.Base.{
  ℕ, ◌<◌, ◌≡◌, refl, true, Option, none, some, if◌then◌else◌, List, [], ◌∷◌, length,
}
use choochoo_os.Base.Int.{pos}
use choochoo_os.Hash.{Key, HashMap, eq_key, key_size, hashmap_insert, hashmap_get}
use choochoo_os.Hash.Table.{IsTable, hashmap_insert-Inserted}
use choochoo_os.User.Names.{
  NameServerMessage, register_as, who_is, NameServerResponse, registered, tid, who_is_tid, handle,
}

-- Messages in the order in which the server receives them, with what each is answered.
unfoldable pub handle_all :
    List (ℕ × NameServerMessage) → HashMap → Option (HashMap × List NameServerResponse)
handle_all [] map = some (map, [])
handle_all ((sender, m) ∷ ms) map = elim (handle true sender m map) [
  | none ↦ none
  | some (map1, response) ↦ elim (handle_all ms map1) [
    | none ↦ none
    | some (map2, rest) ↦ some (map2, response ∷ rest)
  ]
]

-- Every name registered has room in the table.
abbrev pub Fits : NameServerMessage → Type 0
Fits (register_as name) = length name < key_size
Fits (who_is name) = Unit

abbrev pub AllFit : List (ℕ × NameServerMessage) → Type 0
AllFit [] = Unit
AllFit ((_, m) ∷ ms) = Fits m × AllFit ms

-- What the answers must be, from who each name stands for at first.
abbrev pub answers : List (ℕ × NameServerMessage) → (Key → Option ℕ) → List NameServerResponse
answers [] holder = []
answers ((sender, register_as n) ∷ ms) holder =
    registered true ∷ answers ms (λ name. if eq_key n name then some sender else holder name)
answers ((sender, who_is n) ∷ ms) holder = tid (who_is_tid (holder n)) ∷ answers ms holder

-- One message that fits, and the rest.
handle_all-cons :
    (sender : ℕ) (m : NameServerMessage) (ms : List (ℕ × NameServerMessage)) (map map1 : HashMap)
    (response : NameServerResponse) (out : List NameServerResponse)
    → handle true sender m map ≡ some (map1, response)
    → (map2 : HashMap) × (handle_all ms map1 ≡ some (map2, out))
    → (map2 : HashMap) × (handle_all ((sender, m) ∷ ms) map ≡ some (map2, response ∷ out))
unfolding handle_all
handle_all-cons sender m ms map map1 response out e (map2, rest) =
    (map2, rw (handle_all, e, rest) refl)

handle-register_as :
    (sender : ℕ) (name : Key) (map map1 : HashMap)
    → hashmap_insert true map name sender ≡ some (pos 0, map1)
    → handle true sender (register_as name) map ≡ some (map1, registered true)
unfolding handle
handle-register_as sender name map map1 e = rw (handle, e) refl

handle-who_is :
    (sender : ℕ) (name : Key) (map : HashMap)
    → handle true sender (who_is name) map ≡ some (map, tid (who_is_tid (hashmap_get map name)))
unfolding handle
handle-who_is sender name map = refl

-- Every message is answered: a registration with success, and a question for a name with the task that
-- registered the name last, or with -1 if no task has.
pub handle_all-answers :
    (ms : List (ℕ × NameServerMessage)) (map : HashMap)
    → IsTable map
    → AllFit ms
    → (map' : HashMap) × (handle_all ms map ≡ some (map', answers ms (hashmap_get map)))
unfolding handle_all
handle_all-answers [] map ok fits = (map, refl)
handle_all-answers ((sender, register_as n) ∷ ms) map ok fits =
    let (map1, e, get, _, ok1) = hashmap_insert-Inserted map n sender ok fits.0 in
    let seen : hashmap_get map1 ≡ (λ j. if eq_key n j then some sender else hashmap_get map j) =
      λ i j. get j i in
    handle_all-cons sender (register_as n) ms map map1 (registered true) _
      (handle-register_as sender n map map1 e)
      (subst (λ h. (map2 : HashMap) × (handle_all ms map1 ≡ some (map2, answers ms h))) seen
        (handle_all-answers ms map1 ok1 fits.1))
handle_all-answers ((sender, who_is n) ∷ ms) map ok fits =
    handle_all-cons sender (who_is n) ms map map (tid (who_is_tid (hashmap_get map n))) _
      (handle-who_is sender n map) (handle_all-answers ms map ok fits.1)
