-- ===== src/Proxy/RouteCache.antt =====
-- The cache of routes in rusty-workers-proxy/src/sched.rs: the lookup at the head of `handle_request`,
-- `do_lookup_route_background`, and a pass of `route_cache_gc_task`. The rows that the database gives
-- for a domain are an argument; `none` is an error.
pub mod Coherent
pub mod Routes
pub mod Flush
mod Tests
use summer21_rusty_workers.Prelude.{
  Bool, true, false, Option, none, some, List, [], ◌∷◌, ◌==◌, if◌then◌else◌,
}
use summer21_rusty_workers.Bytes.{Bytes, equals}
use summer21_rusty_workers.BtreeMap
use summer21_rusty_workers.BtreeMap.{BtreeMap, collect}
use summer21_rusty_workers.Proxy.State.{Outcome, ok, err, sched, no_route_mapping}
use summer21_rusty_workers.Proxy.Routing.{lookup_submappings}
use summer21_rusty_workers.Proxy.LruCache.{LruCache}

-- AppId is a text.
abbrev pub Table : Type 0
Table = BtreeMap Bytes

-- DataClient::route_mapping_list_for_domain
abbrev pub Database : Type 0
Database = Bytes → Option (List (Bytes × Bytes))

-- `!=` on two tables
unfoldable pub same_table : Table → Table → Bool
same_table [] [] = true
same_table [] (y ∷ ys) = false
same_table (x ∷ xs) [] = false
same_table ((j, v) ∷ xs) ((k, w) ∷ ys) =
    let rest = same_table xs ys in
    if equals j k then (if equals v w then rest else false) else false

-- what comes before the first colon of the `host` header, if it is there and a text
unfoldable pub until_colon : Bytes → Bytes
until_colon [] = []
until_colon (x ∷ xs) = let rest = until_colon xs in if x == b':' then [] else x ∷ rest

unfoldable pub host : Option Bytes → Bytes
unfolding until_colon
host none = []
host (some x) = until_colon x

module _ (lru : LruCache Table) where
  open lru use {Cache, peek, get, insert, remove}

  -- the answer of the database on a domain that is not cached
  store_routes : Bytes → Option (List (Bytes × Bytes)) → Cache → Cache
  store_routes domain (some rows) cache = insert domain (collect rows) cache
  store_routes domain none cache = cache

  unless_cached : Bytes → Database → Option Table × Cache → Cache
  unfolding store_routes
  unless_cached domain db (some m, cache) = cache
  unless_cached domain db (none, cache) = store_routes domain (db domain) cache

  -- do_lookup_route_background, where nothing else touches the cache meanwhile
  pub do_lookup_route_background : Database → Bytes → Cache → Cache
  unfolding unless_cached
  do_lookup_route_background db domain cache = unless_cached domain db (get domain cache)

  unfoldable pub in_table : Bytes → Option Table → Option Bytes
  in_table path none = none
  in_table path (some submappings) = lookup_submappings path submappings

  -- `route_cache.lock().await.get(&host).and_then(…)`
  unfoldable pub lookup_cached : Bytes → Bytes → Cache → Option Bytes × Cache
  unfolding in_table
  lookup_cached domain path cache = let (m, cache') = get domain cache in (in_table path m, cache')

  -- `appid.ok_or(SchedError::NoRouteMapping)?`
  pub ok_or : Option Bytes → Outcome Bytes
  ok_or none = err (sched no_route_mapping)
  ok_or (some appid) = ok appid

  unfoldable pub or_ask :
      Database → Bool → Bytes → Bytes → Option Bytes × Cache → Outcome Bytes × Cache
  unfolding ok_or lookup_cached do_lookup_route_background
  or_ask db accepted domain path (some appid, cache) = (ok appid, cache)
  or_ask db false domain path (none, cache) = (ok_or none, cache)
  or_ask db true domain path (none, cache) =
      let (appid, cache') =
        lookup_cached domain path (do_lookup_route_background db domain cache) in
      (ok_or appid, cache')

  -- the app of a request; `accepted` tells whether the queue of lookups has room
  unfoldable pub find_app : Database → Bool → Bytes → Bytes → Cache → Outcome Bytes × Cache
  unfolding or_ask lookup_cached
  find_app db accepted domain path cache =
      or_ask db accepted domain path (lookup_cached domain path cache)

  -- the comparison of an entry with the table of the database
  flush : Bytes → Option (List (Bytes × Bytes)) → Option Table → Cache → Cache
  unfolding same_table
  flush domain none entry cache = cache
  flush domain (some rows) none cache = cache
  flush domain (some rows) (some entry) cache =
      if same_table entry (collect rows) then cache else remove domain cache

  -- one domain of `route_cache_gc_task`
  pub check_domain : Database → Bytes → Cache → Cache
  unfolding flush
  check_domain db domain cache = flush domain (db domain) (peek domain cache) cache

  -- a pass over the domains that were cached at its start
  pub check_domains : Database → List Bytes → Cache → Cache
  unfolding check_domain
  check_domains db [] cache = cache
  check_domains db (domain ∷ domains) cache =
      check_domains db domains (check_domain db domain cache)
