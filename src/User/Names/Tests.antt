-- ===== src/User/Names/Tests.antt =====
-- A run of the name server.
use choochoo_os.Base.{ℕ, ◌≡◌, refl, true, some, List, [], ◌∷◌, arith}
use choochoo_os.Base.Int.{pos, negsuc}
use choochoo_os.Hash.{Key, HashMap, new_hashmap, hashmap_get, find}
use choochoo_os.Hash.Table.{new_hashmap-IsTable}
use choochoo_os.User.Names.{NameServerMessage, register_as, who_is, registered, tid}
use choochoo_os.User.Names.Lookup.{handle_all, answers, handle_all-answers}

abbrev clock : Key
clock = 84 ∷ 73 ∷ 67 ∷ 75 ∷ []

-- Task 9 asks before and after task 4 registers the name, and again after task 6 does.
abbrev messages : List (ℕ × NameServerMessage)
messages =
    (9, who_is clock)
    ∷ (4, register_as clock)
    ∷ (9, who_is clock)
    ∷ (6, register_as clock)
    ∷ (9, who_is clock)
    ∷ []

answers-messages :
    answers messages (hashmap_get new_hashmap)
    ≡ tid (negsuc 0) ∷ registered true ∷ tid (pos 4) ∷ registered true ∷ tid (pos 6) ∷ []
unfolding hashmap_get find
answers-messages = refl

handle_all-answers_example :
    (map : HashMap) × (handle_all messages new_hashmap
      ≡ some (map, answers messages (hashmap_get new_hashmap)))
handle_all-answers_example =
    handle_all-answers messages new_hashmap new_hashmap-IsTable
      (tt, (omega arith, (tt, (omega arith, (tt, tt)))))
