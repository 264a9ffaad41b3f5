-- ===== src/Tests/Values.antt =====
-- Examples for the memory store of crudauth/storage/backends/memory.py, with texts as the values.
use crudauth.Storage.Lifetime.{consumed_once}
use crudauth.Storage
use crudauth.Prelude.{refl, some, none, arith, Text, codes, ◌≡◌}
use crudauth.Storage.{Json, MemoryStorage}
use crudauth.Tests.{alice, storage_code}

abbrev pub texts : Json Text Text
texts = record { dump = λ t. t; load = λ t. t; user_id = λ t. some t }

abbrev empty : MemoryStorage Text
empty = Storage.init (codes "session:") 1800

abbrev one_entry : MemoryStorage Text
one_entry = (Storage.create texts 1000000 alice (some (codes "a1")) (codes "g") none empty).1

consumed_once_example :
    (Storage.get_and_delete texts 3000000
      (codes "a1")
      (Storage.get_and_delete texts 2000000 (codes "a1") one_entry).1).0
    ≡ none
unfolding storage_code
consumed_once_example =
    consumed_once texts (λ x. refl) 2000000 3000000 one_entry (codes "a1") alice (refl, tt)
      (omega arith) refl
