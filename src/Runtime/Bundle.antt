-- ===== src/Runtime/Bundle.antt =====
-- The unpacking of a worker's bundle in `Instance::new` of rusty-workers-runtime/src/executor.rs. The
-- archive is what the `tar` crate reads from the bundle. The texts of the errors are left out.
pub mod Files
mod Tests
use summer21_rusty_workers.Prelude.{
  ℕ, zero, suc, Bool, true, false, Option, none, some, List, [], ◌∷◌, ltb, length, if◌then◌else◌,
}
use summer21_rusty_workers.Bytes.{Bytes}
use summer21_rusty_workers.BtreeMap
use summer21_rusty_workers.BtreeMap.{BtreeMap}
use summer21_rusty_workers.Types
use summer21_rusty_workers.Types.{GenericResult, GenericError, other}

-- An entry: its path, if that is a text, the size that its header says, and the bytes behind it.
pub record Entry : Type 0 where
  pub path : Option Bytes
  pub size : ℕ
  pub contents : Bytes

abbrev pub index_js : Bytes
index_js = b'i' ∷ b'n' ∷ b'd' ∷ b'e' ∷ b'x' ∷ b'.' ∷ b'j' ∷ b's' ∷ []

abbrev pub dot_index_js : Bytes
dot_index_js = b'.' ∷ b'/' ∷ index_js

abbrev pub bad : {A : Type 0} → GenericResult A
bad = Types.GenericResult.err (other [])

-- Read::read_exact
unfoldable pub read_exact : ℕ → Bytes → Option Bytes
read_exact zero bytes = some []
read_exact (suc n) [] = none
read_exact (suc n) (b ∷ bytes) = elim (read_exact n bytes) [
  | none ↦ none
  | some rest ↦ some (b ∷ rest)
]

-- A path and the data of an entry; the size is compared before the memory is allocated.
unfoldable pub read_entry : ℕ → Option Entry → Option (Bytes × Bytes)
unfolding read_exact
read_entry bundle_size none = none
read_entry bundle_size (some entry) = elim entry.path [
  | none ↦ none
  | some path ↦
      if ltb bundle_size entry.size then none else elim (read_exact entry.size entry.contents) [
        | none ↦ none
        | some content ↦ some (path, content)
      ]
]

-- the loop over the entries
read_entries : ℕ → BtreeMap Bytes → List (Option Entry) → Option (BtreeMap Bytes)
unfolding read_entry
read_entries bundle_size files [] = some files
read_entries bundle_size files (entry ∷ entries) = elim (read_entry bundle_size entry) [
  | none ↦ none
  | some (path, content) ↦ read_entries bundle_size (BtreeMap.insert path content files) entries
]

pub or_else : Option Bytes → Option Bytes → Option Bytes
or_else (some x) o = some x
or_else none o = o

-- `// Lookup the script.`
find_script : BtreeMap Bytes → Option Bytes
unfolding or_else
find_script files = or_else (BtreeMap.get dot_index_js files) (BtreeMap.get index_js files)

with_script : BtreeMap Bytes → Option Bytes → GenericResult (BtreeMap Bytes × Bytes)
with_script files none = bad
with_script files (some script) = Types.GenericResult.ok (files, script)

scripted : Option (BtreeMap Bytes) → GenericResult (BtreeMap Bytes × Bytes)
unfolding with_script find_script
scripted none = bad
scripted (some files) = with_script files (find_script files)

-- The files and the script; `none` is an archive that has no entries to iterate over.
pub unpack : ℕ → Option (List (Option Entry)) → GenericResult (BtreeMap Bytes × Bytes)
unfolding scripted read_entries
unpack bundle_size none = bad
unpack bundle_size (some entries) = scripted (read_entries bundle_size [] entries)
