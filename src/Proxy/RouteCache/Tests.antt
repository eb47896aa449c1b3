-- ===== src/Proxy/RouteCache/Tests.antt =====
-- A cache that never evicts, and a domain with two routes.
use summer21_rusty_workers.Prelude.{
  ◌≡◌, refl, true, Bool-cases, inl, inr, none, some, List, [], ◌∷◌, arith, Member,
}
use summer21_rusty_workers.Bytes.{Bytes, equals}
use summer21_rusty_workers.BtreeMap.{collect}
use summer21_rusty_workers.Proxy.State.{ok}
use summer21_rusty_workers.Proxy.Routing.{LongestMatch, lookup_submappings}
use summer21_rusty_workers.Proxy.LruCache.{LruCache}
use summer21_rusty_workers.Proxy.LruCache.Tests.{Entries, set, unbounded}
use summer21_rusty_workers.Proxy.RouteCache.{
  Table, Database, find_app, ok_or, check_domains, host, until_colon,
}
use summer21_rusty_workers.Proxy.RouteCache.Coherent.{IsCoherent, Fresh}
use summer21_rusty_workers.Proxy.RouteCache.Routes.{find_app-routes}
use summer21_rusty_workers.Proxy.RouteCache.Flush.{check_domains-Fresh}
use summer21_rusty_workers.Proxy.LruCache.Keeps.{Keeps}

abbrev lru : LruCache Table
lru = unbounded Table

abbrev rows : List (Bytes × Bytes)
rows = (b'/' ∷ [], 1 ∷ []) ∷ (b'/' ∷ b'a' ∷ [], 2 ∷ []) ∷ []

abbrev db : Database
db domain = some rows

-- A cache with one domain, filled from the database.
abbrev cache : Entries Table
cache = set (7 ∷ []) (some (collect rows)) (λ k. none)

cache-IsCoherent : IsCoherent lru db cache
cache-IsCoherent domain m e = elim (Bool-cases (equals (7 ∷ []) domain)) [
  | inl y ↦ (rows, refl, ground arith)
  | inr n ↦ absurd (ground arith)
]

find_app-routes_example :
    ((appid : Bytes)
      → (find_app lru db true (7 ∷ []) (b'/' ∷ b'a' ∷ []) cache).0 ≡ ok appid
      → (rs : List (Bytes × Bytes)) × (db (7 ∷ []) ≡ some rs)
        × LongestMatch (b'/' ∷ b'a' ∷ []) (collect rs) appid)
    × ((rs : List (Bytes × Bytes))
        → true ≡ true
        → db (7 ∷ []) ≡ some rs
        → (find_app lru db true (7 ∷ []) (b'/' ∷ b'a' ∷ []) cache).0
          ≡ ok_or lru (lookup_submappings (b'/' ∷ b'a' ∷ []) (collect rs)))
    × IsCoherent lru db (find_app lru db true (7 ∷ []) (b'/' ∷ b'a' ∷ []) cache).1
find_app-routes_example =
    find_app-routes lru db true (7 ∷ []) (b'/' ∷ b'a' ∷ []) cache cache-IsCoherent

check_domains-Fresh_example :
    ((rs : List (Bytes × Bytes))
      → Member {A = Bytes} (7 ∷ []) ((7 ∷ []) ∷ [])
      → db (7 ∷ []) ≡ some rs
      → Fresh lru db (check_domains lru db ((7 ∷ []) ∷ []) cache) (7 ∷ []))
    × Keeps lru (7 ∷ []) cache (check_domains lru db ((7 ∷ []) ∷ []) cache)
check_domains-Fresh_example = check_domains-Fresh lru db ((7 ∷ []) ∷ []) cache (7 ∷ [])

-- host
without_port : host (some (b'a' ∷ b':' ∷ b'8' ∷ [])) ≡ b'a' ∷ []
unfolding host until_colon
without_port = refl
