-- ===== src/Data/Apps/Tests.antt =====
-- A database of one app and one bundle.
use summer21_rusty_workers.Prelude.{
  ℕ, zero, suc, ◌≡◌, refl, sym, ap, ◌∙◌, true, Option, none, some, List, [], ◌∷◌, ◌++◌, map, length,
  some-inj,
}
use summer21_rusty_workers.Bytes.{Bytes, equals}
use summer21_rusty_workers.Types
use summer21_rusty_workers.Proxy.Apps.{AppConfig, KvNamespaceConfig}
use summer21_rusty_workers.Proxy.LruCache.Tests.{set}
use summer21_rusty_workers.Data.Kv.{executed}
use summer21_rusty_workers.Data.Apps.{
  AppRow, AppTable, Json, app_metadata_get, app_metadata_put, app_metadata_delete,
}
use summer21_rusty_workers.Data.Apps.RoundTrip.{app_metadata-put-get}

abbrev Rows : Type 0
Rows = (Bytes → Option AppRow) × (Bytes → Option Bytes)

abbrev table : AppTable
table = record {
  Db = Rows;
  select = λ k db. db.0 k;
  insert_or_update = λ i r db. (set i (some r) db.0, db.1);
  delete = λ i db. (set i none db.0, db.1);
  select_bundle = λ k db. db.1 k;
  insert_bundle = λ i x db. some (db.0, set i (some x) db.1);
  select-insert = λ i k r db. refl;
  select-delete = λ i k db. refl;
  select_bundle-insert = λ i k x db after e. sym (ap (λ o. o.1 k) (some-inj e));
}

-- A text with its length in front, and pairs of texts with their number in front.
split : ℕ → Bytes → Option (Bytes × Bytes)
split zero x = some ([], x)
split (suc n) [] = none
split (suc n) (b ∷ x) = elim (split n x) [ none ↦ none | some (l, r) ↦ some (b ∷ l, r) ]

read : Bytes → Option (Bytes × Bytes)
unfolding split
read [] = none
read (n ∷ x) = split n x

write : Bytes → Bytes → Bytes
write x rest = length x ∷ x ++ rest

split-length : (x rest : Bytes) → split (length x) (x ++ rest) ≡ some (x, rest)
unfolding split
split-length [] rest = refl
split-length (b ∷ x) rest = rw (split-length x rest) refl

read-write : (x rest : Bytes) → read (write x rest) ≡ some (x, rest)
unfolding read write
read-write x rest = split-length x rest

write_pairs : List (Bytes × Bytes) → Bytes
unfolding write
write_pairs [] = []
write_pairs (p ∷ l) = write p.0 (write p.1 (write_pairs l))

next :
    Option (Bytes × Bytes)
    → (Bytes × Bytes → Option (List (Bytes × Bytes)))
    → Option (List (Bytes × Bytes))
next none f = none
next (some x) f = f x

read_pairs : ℕ → Bytes → Option (List (Bytes × Bytes))
unfolding next read
read_pairs zero x = some []
read_pairs (suc n) x = next (read x) (λ a.
    next (read a.1) (λ b. elim (read_pairs n b.1) [ none ↦ none | some l ↦ some ((a.0, b.0) ∷ l) ]))

abbrev count : List (Bytes × Bytes) → ℕ
count [] = 0
count (p ∷ l) = suc (count l)

read_pairs-write_pairs : (l : List (Bytes × Bytes)) → read_pairs (count l) (write_pairs l) ≡ some l
unfolding read_pairs write_pairs next
read_pairs-write_pairs [] = refl
read_pairs-write_pairs ((a, b) ∷ l) =
    rw (read-write a (write b (write_pairs l))) rw (read-write b (write_pairs l)) rw
      (read_pairs-write_pairs l) refl

to_string : List (Bytes × Bytes) → Bytes
to_string l = count l ∷ write_pairs l

from_str : Bytes → Option (List (Bytes × Bytes))
from_str [] = none
from_str (n ∷ x) = read_pairs n x

from_str-to_string : (l : List (Bytes × Bytes)) → from_str (to_string l) ≡ some l
unfolding from_str to_string
from_str-to_string l = read_pairs-write_pairs l

abbrev pair_of : KvNamespaceConfig → Bytes × Bytes
pair_of c = (c.name, c.id)

abbrev namespace_of : Bytes × Bytes → KvNamespaceConfig
namespace_of p = record { name = p.0; id = p.1 }

map_back : (l : List KvNamespaceConfig) → map namespace_of (map pair_of l) ≡ l
map_back [] = refl
map_back (c ∷ l) = ap (λ m. c ∷ m) (map_back l)

abbrev mapped : Option (List (Bytes × Bytes)) → Option (List KvNamespaceConfig)
mapped none = none
mapped (some l) = some (map namespace_of l)

abbrev json : Json
json = record {
  env_to_string = to_string;
  env_from_str = from_str;
  namespaces_to_string = λ l. to_string (map pair_of l);
  namespaces_from_str = λ x. mapped (from_str x);
  env-written = from_str-to_string;
  namespaces-written = λ l. ap mapped (from_str-to_string (map pair_of l)) ∙ ap some (map_back l);
}

abbrev config : AppConfig
config = record {
  id = 1 ∷ [];
  bundle_id = 2 ∷ [];
  env = (3 ∷ [], 4 ∷ []) ∷ [];
  kv_namespaces = record { name = 5 ∷ []; id = 6 ∷ [] } ∷ [];
}

abbrev empty : Rows
empty = (λ k. none, λ k. none)

app_metadata-put-get_example :
    (app_metadata_get table json true (1 ∷ []) (app_metadata_put table json executed config empty).1
      ≡ Types.GenericResult.ok (some config))
    × (app_metadata_get table json true
          (1 ∷ [])
          (app_metadata_delete table json executed (1 ∷ []) empty).1
        ≡ Types.GenericResult.ok none)
unfolding equals
app_metadata-put-get_example = app_metadata-put-get table json config (1 ∷ []) empty
