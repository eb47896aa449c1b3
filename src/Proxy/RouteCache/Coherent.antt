-- ===== src/Proxy/RouteCache/Coherent.antt =====
-- What the cache of routes holds is what the database said, and requests are routed by it.
use summer21_rusty_workers.Prelude.{
  some-inj, ◌≡◌, refl, sym, subst, ◌∙◌, Bool, true, false, inl, inr, Option, none, some, List,
  arith, Bool-cases,
}
use summer21_rusty_workers.Bytes.{Bytes, equals, equals→eq}
use summer21_rusty_workers.BtreeMap.{collect}
use summer21_rusty_workers.Proxy.LruCache.{LruCache}
use summer21_rusty_workers.Proxy.LruCache.Keeps.{unequal}
use summer21_rusty_workers.Proxy.RouteCache.{
  Table, Database, store_routes, unless_cached, do_lookup_route_background, lookup_cached, or_ask,
  find_app,
}

module _ (lru : LruCache Table) where
  open lru use {
    Cache, peek, get, insert, remove, get-found, peek-get, peek-insert_same, peek-insert_other,
    peek-remove_same, peek-remove_other,
  }

  -- The entry of a domain, if there is one, is the table of the rows in the database.
  abbrev pub Fresh : Database → Cache → Bytes → Type 0
  Fresh db cache domain =
      (m : Table)
      → peek domain cache ≡ some m
      → (rows : List (Bytes × Bytes)) × (db domain ≡ some rows) × (m ≡ collect rows)

  -- Each entry is.
  abbrev pub IsCoherent : Database → Cache → Type 0
  IsCoherent db cache = (domain : Bytes) → Fresh db cache domain

  get-IsCoherent :
      (db : Database) (k : Bytes) (cache : Cache)
      → IsCoherent db cache
      → IsCoherent db (get k cache).1
  get-IsCoherent db k cache h domain m e = h domain m (sym (peek-get k domain cache) ∙ e)

  insert-IsCoherent :
      (db : Database) (k : Bytes) (rows : List (Bytes × Bytes)) (cache : Cache)
      → db k ≡ some rows
      → IsCoherent db cache
      → IsCoherent db (insert k (collect rows) cache)
  insert-IsCoherent db k rows cache found h domain m e = elim (Bool-cases (equals k domain)) [
    | inl y ↦
        let same : k ≡ domain = equals→eq k domain y in
        (
          rows,
          subst (λ d. db d ≡ some rows) same found,
          (some-inj (
              sym (subst (λ d. peek d (insert k (collect rows) cache) ≡ some m) (sym same) e)
              ∙ peek-insert_same k (collect rows) cache)),
        )
    | inr n ↦ elim (peek-insert_other k domain (collect rows) cache (unequal k domain n)) [
      | inl kept ↦ h domain m (sym kept ∙ e)
      | inr gone ↦ absurd (ground arith)
    ]
  ]

  store_routes-IsCoherent :
      (db : Database) (domain : Bytes) (rows : Option (List (Bytes × Bytes))) (cache : Cache)
      → db domain ≡ rows
      → IsCoherent db cache
      → IsCoherent db (store_routes lru domain rows cache)
  unfolding store_routes
  store_routes-IsCoherent db domain none cache q h = h
  store_routes-IsCoherent db domain (some rows) cache q h =
      insert-IsCoherent db domain rows cache q h

  unless_cached-IsCoherent :
      (db : Database) (domain : Bytes) (r : Option Table × Cache)
      → IsCoherent db r.1
      → IsCoherent db (unless_cached lru domain db r)
  unfolding unless_cached
  unless_cached-IsCoherent db domain (some m, cache) h = h
  unless_cached-IsCoherent db domain (none, cache) h =
      store_routes-IsCoherent db domain (db domain) cache refl h

  do_lookup-IsCoherent :
      (db : Database) (domain : Bytes) (cache : Cache)
      → IsCoherent db cache
      → IsCoherent db (do_lookup_route_background lru db domain cache)
  unfolding do_lookup_route_background
  do_lookup-IsCoherent db domain cache h =
      unless_cached-IsCoherent db domain (get domain cache) (get-IsCoherent db domain cache h)

  or_ask-IsCoherent :
      (db : Database) (accepted : Bool) (domain path : Bytes) (r : Option Bytes × Cache)
      → IsCoherent db r.1
      → IsCoherent db (or_ask lru db accepted domain path r).1
  unfolding or_ask lookup_cached
  or_ask-IsCoherent db accepted domain path (some appid, cache) h = h
  or_ask-IsCoherent db false domain path (none, cache) h = h
  or_ask-IsCoherent db true domain path (none, cache) h =
      get-IsCoherent db domain _ (do_lookup-IsCoherent db domain cache h)

  -- A request leaves in the cache what the database said.
  pub find_app-IsCoherent :
      (db : Database) (accepted : Bool) (domain path : Bytes) (cache : Cache)
      → IsCoherent db cache
      → IsCoherent db (find_app lru db accepted domain path cache).1
  unfolding find_app lookup_cached
  find_app-IsCoherent db accepted domain path cache h =
      or_ask-IsCoherent db accepted domain path (lookup_cached lru domain path cache)
        (get-IsCoherent db domain cache h)
