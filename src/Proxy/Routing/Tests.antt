-- ===== src/Proxy/Routing/Tests.antt =====
-- The routes of a domain that has an app at its root and one under a directory.
use summer21_rusty_workers.Prelude.{ℕ, ◌≡◌, refl, List, [], ◌∷◌, some}
use summer21_rusty_workers.Bytes.{Bytes, starts_with, equals, precedes}
use summer21_rusty_workers.BtreeMap.{collect, collect_into, insert}
use summer21_rusty_workers.Proxy.Routing.{
  LongestMatch, first_match, lookup_submappings, lookup-collect-LongestMatch,
}

abbrev root : Bytes
root = b'/' ∷ []

abbrev api : Bytes
api = b'/' ∷ b'a' ∷ []

abbrev rows : List (Bytes × ℕ)
rows = (api, 2) ∷ (root, 1) ∷ []

abbrev path : Bytes
path = b'/' ∷ b'a' ∷ b'/' ∷ b'x' ∷ []

routed : lookup_submappings path (collect rows) ≡ some 2
unfolding lookup_submappings first_match collect collect_into insert starts_with equals precedes
routed = refl

lookup-collect-LongestMatch_example : LongestMatch path (collect rows) 2
lookup-collect-LongestMatch_example = lookup-collect-LongestMatch path rows 2 routed
