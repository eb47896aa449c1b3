-- ===== src/BtreeMap.antt =====
-- Rust's `BTreeMap` with `String` keys: its entries in ascending order of the keys.
pub mod Entries
use summer21_rusty_workers.Prelude.{
  ◌≡◌, refl, true, Option, none, some, List, [], ◌∷◌, arith, All, if◌then◌else◌,
}
use summer21_rusty_workers.Bytes.{
  Bytes, equals, precedes, equals_iff, precedes_trans, precedes_total, precedes_irrefl,
}

abbrev pub BtreeMap : Type 0 → Type 0
BtreeMap V = List (Bytes × V)

module _ {V : Type 0} where
  -- BTreeMap::get
  unfoldable pub get : Bytes → BtreeMap V → Option V
  get k [] = none
  get k ((j, v) ∷ m) = if equals j k then some v else get k m

  -- BTreeMap::insert, which replaces the value of a key that is there
  unfoldable pub insert : Bytes → V → BtreeMap V → BtreeMap V
  insert k v [] = (k, v) ∷ []
  insert k v ((j, w) ∷ m) =
      let rest = insert k v m in
      if equals j k then (j, v) ∷ m else if precedes k j then (k, v) ∷ (j, w) ∷ m else (j, w) ∷ rest

  -- BTreeMap::remove
  unfoldable pub remove : Bytes → BtreeMap V → BtreeMap V
  remove k [] = []
  remove k ((j, v) ∷ m) = let rest = remove k m in if equals j k then m else (j, v) ∷ rest

  -- Iterator::collect: the entries are inserted in their order
  unfoldable pub collect_into : BtreeMap V → List (Bytes × V) → BtreeMap V
  collect_into m [] = m
  collect_into m ((k, v) ∷ es) = collect_into (insert k v m) es

  unfoldable pub collect : List (Bytes × V) → BtreeMap V
  unfolding collect_into insert
  collect es = collect_into [] es

  abbrev pub Above : Bytes → BtreeMap V → Type 0
  Above k m = All (λ e. precedes k e.0 ≡ true) m

  -- Each key precedes all those behind it.
  abbrev pub IsSorted : BtreeMap V → Type 0
  IsSorted [] = Unit
  IsSorted ((k, v) ∷ m) = Above k m × IsSorted m

  pub Above-trans : (j k : Bytes) (m : BtreeMap V) → precedes j k ≡ true → Above k m → Above j m
  Above-trans j k [] h a = tt
  Above-trans j k ((i, v) ∷ m) h a = (precedes_trans j k i h a.0, Above-trans j k m h a.1)

  insert-Above :
      (j k : Bytes) (v : V) (m : BtreeMap V)
      → precedes j k ≡ true
      → Above j m
      → Above j (insert k v m)
  unfolding insert
  insert-Above j k v [] h a = (h, tt)
  insert-Above j k v ((i, w) ∷ m) h a = ground (arith, insert-Above j k v m h a.1)

  pub insert-IsSorted : (k : Bytes) (v : V) (m : BtreeMap V) → IsSorted m → IsSorted (insert k v m)
  unfolding insert
  insert-IsSorted k v [] s = (tt, tt)
  insert-IsSorted k v ((j, w) ∷ m) s = ground (
    arith,
    insert-IsSorted k v m s.1,
    insert-Above j k v m,
    precedes_total j k,
    precedes_total k j,
    equals_iff j k,
    equals_iff k j,
    Above-trans k j m,
  )

  pub collect_into-IsSorted :
      (m : BtreeMap V) (es : List (Bytes × V)) → IsSorted m → IsSorted (collect_into m es)
  unfolding collect_into
  collect_into-IsSorted m [] s = s
  collect_into-IsSorted m ((k, v) ∷ es) s =
      collect_into-IsSorted (insert k v m) es (insert-IsSorted k v m s)

  pub collect-IsSorted : (es : List (Bytes × V)) → IsSorted (collect es)
  unfolding collect
  collect-IsSorted es = collect_into-IsSorted [] es tt

  pub get-insert :
      (k j : Bytes) (v : V) (m : BtreeMap V)
      → get j (insert k v m) ≡ (if equals k j then some v else get j m)
  unfolding get insert
  get-insert k j v [] = refl
  get-insert k j v ((i, w) ∷ m) =
      ground (arith, get-insert k j v m, equals_iff i k, equals_iff i j, equals_iff k j)

  pub Above-get : (k : Bytes) (m : BtreeMap V) → Above k m → get k m ≡ none
  unfolding get
  Above-get k [] a = refl
  Above-get k ((j, v) ∷ m) a =
      ground (arith, Above-get k m a.1, equals_iff j k, precedes_irrefl k, a.0)

  pub get-remove :
      (k j : Bytes) (m : BtreeMap V)
      → IsSorted m
      → get j (remove k m) ≡ (if equals k j then none else get j m)
  unfolding get remove
  get-remove k j [] s = ground arith
  get-remove k j ((i, w) ∷ m) s = ground (
    arith,
    get-remove k j m s.1,
    equals_iff i k,
    equals_iff i j,
    equals_iff k j,
    Above-get i m s.0,
  )

  remove-Above : (j k : Bytes) (m : BtreeMap V) → Above j m → Above j (remove k m)
  unfolding remove
  remove-Above j k [] a = tt
  remove-Above j k ((i, w) ∷ m) a = ground (arith, remove-Above j k m a.1)

  pub remove-IsSorted : (k : Bytes) (m : BtreeMap V) → IsSorted m → IsSorted (remove k m)
  unfolding remove
  remove-IsSorted k [] s = tt
  remove-IsSorted k ((j, v) ∷ m) s = ground (arith, remove-IsSorted k m s.1, remove-Above j k m s.0)
