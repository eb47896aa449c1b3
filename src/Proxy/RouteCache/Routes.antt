-- ===== src/Proxy/RouteCache/Routes.antt =====
-- How a request is routed by the cache and the database.
use summer21_rusty_workers.Prelude.{
  some-inj, ◌≡◌, ◌⊎◌, refl, ap, sym, subst, ◌∙◌, Bool, true, false, inl, inr, Option, none, some,
  List, arith, Option-cases,
}
use summer21_rusty_workers.Bytes.{Bytes}
use summer21_rusty_workers.BtreeMap.{collect}
use summer21_rusty_workers.Proxy.State.{ok}
use summer21_rusty_workers.Proxy.Routing.{
  lookup_submappings, LongestMatch, lookup-collect-LongestMatch,
}
use summer21_rusty_workers.Proxy.LruCache.{LruCache}
use summer21_rusty_workers.Proxy.LruCache.Keeps.{}
use summer21_rusty_workers.Proxy.RouteCache.{
  Table, Database, store_routes, unless_cached, do_lookup_route_background, in_table, lookup_cached,
  ok_or, or_ask, find_app,
}
use summer21_rusty_workers.Proxy.RouteCache.Coherent.{IsCoherent, find_app-IsCoherent}

module _ (lru : LruCache Table) where
  open lru use {
    Cache, peek, get, insert, remove, get-found, peek-get, peek-insert_same, peek-insert_other,
    peek-remove_same, peek-remove_other,
  }

  -- The table that a request is routed by: the cached one, or that of the database if it can be asked.
  pub known : Bool → Option Table → Option (List (Bytes × Bytes)) → Option Table
  known accepted (some m) rows = some m
  known true none (some rows) = some (collect rows)
  known true none none = none
  known false none rows = none

  peek-store :
      (db : Database) (domain : Bytes) (rows : Option (List (Bytes × Bytes))) (cache : Cache)
      → peek domain cache ≡ none
      → peek domain (store_routes lru domain rows cache) ≡ known true none rows
  unfolding store_routes known
  peek-store db domain none cache e = e
  peek-store db domain (some rows) cache e = peek-insert_same domain (collect rows) cache

  peek-asked :
      (db : Database) (domain : Bytes) (r : Option Table × Cache)
      → r.0 ≡ peek domain r.1
      → peek domain (unless_cached lru domain db r) ≡ known true r.0 (db domain)
  unfolding unless_cached known
  peek-asked db domain (some m, cache) e = sym e
  peek-asked db domain (none, cache) e = peek-store db domain (db domain) cache (sym e)

  lookup-found :
      (domain path : Bytes) (cache : Cache)
      → (lookup_cached lru domain path cache).0 ≡ in_table lru path (peek domain cache)
  unfolding lookup_cached
  lookup-found domain path cache = rw (get-found domain cache)

  get-same :
      (domain : Bytes) (cache : Cache) → (get domain cache).0 ≡ peek domain (get domain cache).1
  get-same domain cache = get-found domain cache ∙ sym (peek-get domain domain cache)

  peek-do_lookup :
      (db : Database) (domain : Bytes) (cache : Cache)
      → peek domain (do_lookup_route_background lru db domain cache)
        ≡ known true (peek domain cache) (db domain)
  unfolding do_lookup_route_background
  peek-do_lookup db domain cache =
      peek-asked db domain (get domain cache) (get-same domain cache)
      ∙ ap (λ o. known true o (db domain)) (get-found domain cache)

  -- A table that does not route the path is not replaced by asking.
  ask_again :
      (path : Bytes) (entry : Option Table) (rows : Option (List (Bytes × Bytes))) (appid : Bytes)
      → in_table lru path entry ≡ some appid
      → (accepted : Bool) → in_table lru path (known accepted entry rows) ≡ some appid
  unfolding known in_table
  ask_again path none rows appid e accepted = cc
  ask_again path (some m) rows appid e accepted = e

  or_ask-result :
      (db : Database) (accepted : Bool) (domain path : Bytes) (entry : Option Table)
      (r : Option Bytes × Cache)
      → r.0 ≡ in_table lru path entry
      → peek domain r.1 ≡ entry
      → (or_ask lru db accepted domain path r).0
        ≡ ok_or lru (in_table lru path (known accepted entry (db domain)))
  unfolding or_ask ok_or known in_table
  or_ask-result db accepted domain path entry (some appid, cache) e p =
      rw (ask_again path entry (db domain) appid (sym e) accepted) refl
  or_ask-result db false domain path none (none, cache) e p = refl
  or_ask-result db false domain path (some m) (none, cache) e p = ap (ok_or lru) e
  or_ask-result db true domain path entry (none, cache) e p = ap (ok_or lru) (
      lookup-found domain path (do_lookup_route_background lru db domain cache)
      ∙ ap (in_table lru path)
          (peek-do_lookup db domain cache ∙ ap (λ o. known true o (db domain)) p))

  find_app-result :
      (db : Database) (accepted : Bool) (domain path : Bytes) (cache : Cache)
      → (find_app lru db accepted domain path cache).0
        ≡ ok_or lru (in_table lru path (known accepted (peek domain cache) (db domain)))
  unfolding find_app
  find_app-result db accepted domain path cache =
      or_ask-result db accepted domain path (peek domain cache)
        (lookup_cached lru domain path cache) (lookup-found domain path cache)
        (unfold lookup_cached in peek-get domain domain cache)

  known-cases :
      (accepted : Bool) (entry : Option Table) (rows : Option (List (Bytes × Bytes))) (m : Table)
      → known accepted entry rows ≡ some m
      → (entry ≡ some m) ⊎ ((r : List (Bytes × Bytes)) × (rows ≡ some r) × (m ≡ collect r))
  unfolding known
  known-cases accepted (some t) rows m e = inl e
  known-cases true none (some r) m e = inr (r, refl, some-inj (sym e))
  known-cases true none none m e = cc
  known-cases false none rows m e = cc

  -- In a coherent cache the known table is that of the database.
  known-rows :
      (db : Database) (accepted : Bool) (domain : Bytes) (cache : Cache) (m : Table)
      → IsCoherent lru db cache
      → known accepted (peek domain cache) (db domain) ≡ some m
      → (rows : List (Bytes × Bytes)) × (db domain ≡ some rows) × (m ≡ collect rows)
  known-rows db accepted domain cache m h e =
      elim (known-cases accepted (peek domain cache) (db domain) m e) [
        | inl p ↦ h domain m p
        | inr r ↦ r
      ]

  in_table-some :
      (path : Bytes) (o : Option Table) (appid : Bytes)
      → in_table lru path o ≡ some appid
      → (m : Table) × (o ≡ some m) × (lookup_submappings path m ≡ some appid)
  unfolding in_table
  in_table-some path none appid e = cc
  in_table-some path (some m) appid e = (m, refl, e)

  ok_or-ok : (o : Option Bytes) (appid : Bytes) → ok_or lru o ≡ ok appid → o ≡ some appid
  unfolding ok_or
  ok_or-ok none appid e = cc
  ok_or-ok (some x) appid e = ap some (ground arith)

  known_table :
      (db : Database) (domain : Bytes) (cache : Cache) (rows : List (Bytes × Bytes))
      → IsCoherent lru db cache
      → db domain ≡ some rows
      → known true (peek domain cache) (db domain) ≡ some (collect rows)
  unfolding known
  known_table db domain cache rows h q = elim (Option-cases (peek domain cache)) [
    | inl p ↦ rw (p, q) refl
    | inr (m, p) ↦
        let (rows', q', e) = h domain m p in
        let same : rows' ≡ rows = some-inj (sym q' ∙ q) in rw p (ap some (e ∙ ap collect same))
  ]

  routed_by :
      (path : Bytes) (o : Option Table) (m : Table)
      → o ≡ some m
      → ok_or lru (in_table lru path o) ≡ ok_or lru (lookup_submappings path m)
  unfolding in_table
  routed_by path o m e = rw e refl

  -- Where the cache holds what the database said: the app that a request is sent to is that of the
  -- longest prefix among the rows of its domain, and if the domain can be asked for, a request is
  -- refused only when no row routes it; and the cache goes on holding what the database said.
  pub find_app-routes :
      (db : Database) (accepted : Bool) (domain path : Bytes) (cache : Cache)
      → IsCoherent lru db cache
      → ((appid : Bytes)
          → (find_app lru db accepted domain path cache).0 ≡ ok appid
          → (rows : List (Bytes × Bytes)) × (db domain ≡ some rows)
            × LongestMatch path (collect rows) appid)
        × ((rows : List (Bytes × Bytes))
            → accepted ≡ true
            → db domain ≡ some rows
            → (find_app lru db accepted domain path cache).0
              ≡ ok_or lru (lookup_submappings path (collect rows)))
        × IsCoherent lru db (find_app lru db accepted domain path cache).1
  find_app-routes db accepted domain path cache h =
      (routed, answered, find_app-IsCoherent lru db accepted domain path cache h)
    where
      routed :
          (appid : Bytes)
          → (find_app lru db accepted domain path cache).0 ≡ ok appid
          → (rows : List (Bytes × Bytes)) × (db domain ≡ some rows)
            × LongestMatch path (collect rows) appid
      routed appid e =
          let (m, k, l) =
            in_table-some path _ appid
              (ok_or-ok _ appid (sym (find_app-result db accepted domain path cache) ∙ e)) in
          let (rows, q, c) = known-rows db accepted domain cache m h k in
          (
            rows,
            q,
            lookup-collect-LongestMatch path rows appid
                (subst (λ t. lookup_submappings path t ≡ some appid) c l),
          )

      answered :
          (rows : List (Bytes × Bytes))
          → accepted ≡ true
          → db domain ≡ some rows
          → (find_app lru db accepted domain path cache).0
            ≡ ok_or lru (lookup_submappings path (collect rows))
      answered rows has_room q =
          find_app-result db accepted domain path cache
          ∙ routed_by path _ (collect rows) (
              subst (λ a. known a (peek domain cache) (db domain) ≡ some (collect rows))
                (sym has_room) (known_table db domain cache rows h q))
