-- ===== src/Runtime/Bundle/Tests.antt =====
-- A bundle with the script twice.
use summer21_rusty_workers.Prelude.{refl, Option, some, List, [], ◌∷◌}
use summer21_rusty_workers.Bytes.{Bytes, equals, precedes}
use summer21_rusty_workers.BtreeMap
use summer21_rusty_workers.BtreeMap.{BtreeMap}
use summer21_rusty_workers.Runtime.Bundle.{
  Entry, index_js, dot_index_js, read_exact, read_entry, read_entries, or_else, find_script,
  with_script, scripted, unpack,
}
use summer21_rusty_workers.Runtime.Bundle.Files.{Unpacked, unpack-Unpacked}

abbrev entries : List (Option Entry)
entries =
    some (record { path = some index_js; size = 1; contents = 7 ∷ 8 ∷ [] })
    ∷ some (record { path = some dot_index_js; size = 2; contents = 1 ∷ 2 ∷ [] })
    ∷ some (record { path = some dot_index_js; size = 2; contents = 3 ∷ 4 ∷ [] })
    ∷ []

abbrev files : BtreeMap Bytes
files = (dot_index_js, 3 ∷ 4 ∷ []) ∷ (index_js, 7 ∷ []) ∷ []

unpack-Unpacked_example : Unpacked 1536 entries files (3 ∷ 4 ∷ [])
unfolding unpack read_entries read_entry read_exact scripted with_script find_script or_else
    BtreeMap.insert BtreeMap.get equals precedes
unpack-Unpacked_example = unpack-Unpacked 1536 entries files (3 ∷ 4 ∷ []) refl
