-- ===== src/Data/Table.antt =====
-- The table `appkv` of the database, with the primary key (nsid, appkey): what the statements of
-- rusty-workers/src/db.rs do to it. The conditions of a statement are arguments, as the code gives
-- them. A statement is executed whole. The column of metadata is left out: it is always empty.
-- Texts are compared byte by byte; where the collation of a column of the server takes different texts
-- for equal ones, the laws here do not hold of it.
pub mod Tests
use summer21_rusty_workers.Prelude.{
  ℕ, ◌≤◌, ◌≡◌, Bool, true, Option, none, some, List, [], ◌∷◌, ◌<◌, Member, All, length, ◌&&◌,
  if◌then◌else◌,
}
use summer21_rusty_workers.Bytes.{Bytes, equals}

pub record Row : Type 0 where
  pub value : Bytes
  pub expiration : ℕ

-- `and p` in a condition
unfoldable pub kept : (Row → Bool) → Option Row → Option Row
kept p none = none
kept p (some r) = if p r then some r else none

-- `select …, … where not exists`: the row of the key, if there was one, unless it is there
unfoldable pub unless_kept : (Row → Bool) → Row → Option Row → Option Row
unless_kept p new none = some new
unless_kept p new (some r) = if p r then some r else some new

abbrev pub same_key : Bytes → Bytes → Bytes → Bytes → Bool
same_key ns k ns' k' = equals ns ns' && equals k k'

-- No key twice.
abbrev pub Distinct : List Bytes → Type 0
Distinct [] = Unit
Distinct (k ∷ l) = (¬ Member k l) × Distinct l

pub record Table : Type 1 where
  pub Db : Type 0
  pub row : Bytes → Bytes → Db → Option Row
  -- select … where nsid = ? and appkey = ? and p
  pub select_first : Bytes → Bytes → (Row → Bool) → Db → Option Row
  -- insert … on duplicate key update …
  pub insert_or_update : Bytes → Bytes → Row → Db → Db
  -- replace … where not exists (select 1 … and p)
  pub replace_unless : Bytes → Bytes → Row → (Row → Bool) → Db → Db
  -- delete … where nsid = ? and appkey = ?
  pub delete : Bytes → Bytes → Db → Db
  -- select appkey … where nsid = ? and … limit ?
  pub select_keys : Bytes → (Bytes → Bool) → (Row → Bool) → ℕ → Db → List Bytes
  pub select_first-row :
      (ns k : Bytes) (p : Row → Bool) (db : Db) → select_first ns k p db ≡ kept p (row ns k db)
  pub row-insert :
      (ns k ns' k' : Bytes) (r : Row) (db : Db)
      → row ns' k' (insert_or_update ns k r db)
        ≡ (if same_key ns k ns' k' then some r else row ns' k' db)
  pub row-replace :
      (ns k ns' k' : Bytes) (r : Row) (p : Row → Bool) (db : Db)
      → row ns' k' (replace_unless ns k r p db)
        ≡ (if same_key ns k ns' k' then unless_kept p r (row ns k db) else row ns' k' db)
  pub row-delete :
      (ns k ns' k' : Bytes) (db : Db)
      → row ns' k' (delete ns k db) ≡ (if same_key ns k ns' k' then none else row ns' k' db)
  pub select_keys-found :
      (ns : Bytes) (range : Bytes → Bool) (p : Row → Bool) (limit : ℕ) (db : Db)
      → All
          (λ k. (range k ≡ true) × ((r : Row) × (row ns k db ≡ some r) × (p r ≡ true)))
          (select_keys ns range p limit db)
  pub select_keys-limit :
      (ns : Bytes) (range : Bytes → Bool) (p : Row → Bool) (limit : ℕ) (db : Db)
      → length (select_keys ns range p limit db) ≤ limit
  pub select_keys-Distinct :
      (ns : Bytes) (range : Bytes → Bool) (p : Row → Bool) (limit : ℕ) (db : Db)
      → Distinct (select_keys ns range p limit db)
  -- Only the limit leaves keys out.
  pub select_keys-all :
      (ns : Bytes) (range : Bytes → Bool) (p : Row → Bool) (limit : ℕ) (db : Db)
      → length (select_keys ns range p limit db) < limit
      → (k : Bytes) (r : Row) → range k ≡ true
      → row ns k db ≡ some r
      → p r ≡ true
      → Member k (select_keys ns range p limit db)
