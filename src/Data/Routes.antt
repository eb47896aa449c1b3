-- ===== src/Data/Routes.antt =====
-- The routes in the database: `route_mapping_insert`, `route_mapping_delete`,
-- `route_mapping_delete_domain`, `route_mapping_list_for_domain` and `route_mapping_lookup` of
-- rusty-workers/src/db.rs. The table `routes` has the primary key (domain, path).
pub mod Lookup
mod Tests
use summer21_rusty_workers.Prelude.{
  ◌==◌, ℕ, ◌≤◌, ◌≡◌, ◌↔◌, Bool, true, false, Option, none, some, List, [], ◌∷◌, ◌++◌, Member,
  length, ◌&&◌, if◌then◌else◌,
}
use summer21_rusty_workers.Bytes.{Bytes, equals, starts_with}
use summer21_rusty_workers.BtreeMap.{BtreeMap, collect}
use summer21_rusty_workers.Types
use summer21_rusty_workers.Types.{GenericResult}
use summer21_rusty_workers.Data.Kv.{Fate, executed, failed, unconfirmed, lost}

-- A path without the characters that `like` reads otherwise.
unfoldable pub is_plain : Bytes → Bool
is_plain [] = true
is_plain (x ∷ xs) =
    let rest = is_plain xs in
    if x == b'%' then false else if x == b'_' then false else if x == b'\\' then false else rest

pub record RouteTable : Type 1 where
  pub Db : Type 0
  pub app_of : Bytes → Bytes → Db → Option Bytes
  -- text like pattern
  pub like : Bytes → Bytes → Bool
  -- select path, appid … where `domain` = ?
  pub select_routes : Bytes → Db → List (Bytes × Bytes)
  -- select appid … where `domain` = ? and p order by length(`path`) desc limit 1
  pub select_longest : Bytes → (Bytes → Bool) → Db → Option Bytes
  pub like-prefix :
      (text path : Bytes)
      → is_plain path ≡ true
      → like text (path ++ b'%' ∷ []) ≡ starts_with text path
  pub select_routes-rows :
      (d p a : Bytes) (db : Db) → Member (p, a) (select_routes d db) ↔ (app_of d p db ≡ some a)
  pub select_longest-some :
      (d : Bytes) (q : Bytes → Bool) (db : Db) (a : Bytes)
      → select_longest d q db ≡ some a
      → (p : Bytes) × (app_of d p db ≡ some a)
        × (q p ≡ true)
        × ((p' a' : Bytes) → app_of d p' db ≡ some a' → q p' ≡ true → length p' ≤ length p)
  pub select_longest-none :
      (d : Bytes) (q : Bytes → Bool) (db : Db)
      → select_longest d q db ≡ none
      → (p a : Bytes) → app_of d p db ≡ some a
      → q p ≡ false

-- The statements that change the table.
pub record RouteUpdates (t : RouteTable) : Type 0 where
  -- replace into routes
  pub replace : Bytes → Bytes → Bytes → t.Db → t.Db
  -- delete … where domain = ? and path = ?
  pub delete : Bytes → Bytes → t.Db → t.Db
  -- delete … where `domain` = ?
  pub delete_domain : Bytes → t.Db → t.Db
  pub app_of-replace :
      (d p a d' p' : Bytes) (db : t.Db)
      → t.app_of d' p' (replace d p a db)
        ≡ (if equals d d' && equals p p' then some a else t.app_of d' p' db)
  pub app_of-delete :
      (d p d' p' : Bytes) (db : t.Db)
      → t.app_of d' p' (delete d p db)
        ≡ (if equals d d' && equals p p' then none else t.app_of d' p' db)
  pub app_of-delete_domain :
      (d d' p' : Bytes) (db : t.Db)
      → t.app_of d' p' (delete_domain d db) ≡ (if equals d d' then none else t.app_of d' p' db)

-- What a client gets of one statement, and the database after it.
unfoldable pub confirmed : {D : Type 0} → Fate → D → D → GenericResult (Unit {0}) × D
confirmed executed before after = (Types.GenericResult.ok tt, after)
confirmed failed before after = (Types.GenericResult.err lost, before)
confirmed unconfirmed before after = (Types.GenericResult.err lost, after)

module _ (t : RouteTable) (u : RouteUpdates t) where
  open t use {Db}
  open u use {replace, delete, delete_domain}

  unfoldable pub route_mapping_insert :
      Fate → Bytes → Bytes → Bytes → Db → GenericResult (Unit {0}) × Db
  route_mapping_insert fate domain path appid db = confirmed fate db (replace domain path appid db)

  unfoldable pub route_mapping_delete : Fate → Bytes → Bytes → Db → GenericResult (Unit {0}) × Db
  route_mapping_delete fate domain path db = confirmed fate db (delete domain path db)

  unfoldable pub route_mapping_delete_domain : Fate → Bytes → Db → GenericResult (Unit {0}) × Db
  route_mapping_delete_domain fate domain db = confirmed fate db (delete_domain domain db)

module _ (t : RouteTable) where
  open t use {Db, like, select_routes, select_longest}

  pub route_mapping_list_for_domain : Bool → Bytes → Db → GenericResult (BtreeMap Bytes)
  route_mapping_list_for_domain works domain db =
      if works
      then Types.GenericResult.ok (collect (select_routes domain db))
      else Types.GenericResult.err lost

  -- ? like concat(`path`, '%')
  abbrev pub is_prefix : Bytes → Bytes → Bool
  is_prefix path p = like path (p ++ b'%' ∷ [])

  pub route_mapping_lookup : Bool → Bytes → Bytes → Db → GenericResult (Option Bytes)
  route_mapping_lookup works domain path db =
      if works
      then Types.GenericResult.ok (select_longest domain (is_prefix path) db)
      else Types.GenericResult.err lost
