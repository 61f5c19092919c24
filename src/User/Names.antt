-- ===== src/User/Names.antt =====
-- user/nameserver.c and nameserver.h: the server that tells tasks each other's numbers by name.
pub mod Lookup
mod Tests
use choochoo_os.Base.{ℕ, Bool, true, Option, none, some}
use choochoo_os.Base.Int.{ℤ, pos, negsuc}
use choochoo_os.Hash.{Key, HashMap, hashmap_insert, hashmap_get}

pub data NameServerMessage : Type 0 where
  register_as who_is : Key → NameServerMessage

pub data NameServerResponse : Type 0 where
  registered : Bool → NameServerResponse
  tid : ℤ → NameServerResponse

-- The answer to NS_WHO_IS from what the table holds: -1 for an unknown name.
abbrev pub who_is_tid : Option ℕ → ℤ
who_is_tid none = negsuc 0
who_is_tid (some t) = pos t

-- One message, with the reply to its sender. The result of the insertion is not looked at; `none` is
-- a name too long for the table.
unfoldable pub handle :
    Bool → ℕ → NameServerMessage → HashMap → Option (HashMap × NameServerResponse)
handle room sender (register_as name) map = elim (hashmap_insert room map name sender) [
  | none ↦ none
  | some (_, map') ↦ some (map', registered true)
]
handle room sender (who_is name) map = some (map, tid (who_is_tid (hashmap_get map name)))
