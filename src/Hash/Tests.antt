-- ===== src/Hash/Tests.antt =====
-- Runs of the table.
use choochoo_os.Base.{ℕ, ◌≡◌, refl, inl, inr, Bool-cases, ◌==◌, update, true, [], ◌∷◌, arith}
use choochoo_os.Hash.{
  Key, HashMap, hash, hash_from, find, new_hashmap, hashmap_insert, hashmap_remove,
}
use choochoo_os.Hash.Buckets.{Distinct}
use choochoo_os.Hash.Table.{
  IsTable, total, new_hashmap-IsTable, Inserted, hashmap_insert-Inserted, Removed,
  hashmap_remove-Removed,
}

-- "io" and "clk".
abbrev io : Key
io = 105 ∷ 111 ∷ []

abbrev clk : Key
clk = 99 ∷ 108 ∷ 107 ∷ []

hash-io : hash io ≡ 16
unfolding hash hash_from
hash-io = refl

hashmap_insert-Inserted_example : Inserted new_hashmap io 7 (hashmap_insert true new_hashmap io 7)
hashmap_insert-Inserted_example =
    hashmap_insert-Inserted new_hashmap io 7 new_hashmap-IsTable (omega arith)

-- The table with "io" alone.
abbrev with_io : HashMap
with_io = record {
  buckets = λ i. update (λ _. []) 16 (record { key = io; value = 7 } ∷ []) i;
  size = 1;
}

with_io-IsTable : IsTable with_io
unfolding total find
with_io-IsTable = record { distinct = λ i. distinct_at i; counted = refl }
  where
    distinct_at : (i : ℕ) → Distinct (with_io.buckets i)
    distinct_at i = elim (Bool-cases (16 == i)) [ inl e ↦ rw e (refl, tt) | inr e ↦ rw e tt ]

hashmap_remove-Removed_example : Removed with_io io (hashmap_remove with_io io)
hashmap_remove-Removed_example = hashmap_remove-Removed with_io io with_io-IsTable
