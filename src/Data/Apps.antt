-- ===== src/Data/Apps.antt =====
-- The apps and their bundles in rusty-workers/src/db.rs. The server and serde_json are interfaces.
pub mod RoundTrip
mod Tests
use summer21_rusty_workers.Prelude.{
  ◌≡◌, Bool, true, false, Option, none, some, List, [], ◌∷◌, if◌then◌else◌,
}
use summer21_rusty_workers.Bytes.{Bytes, equals}
use summer21_rusty_workers.BtreeMap.{BtreeMap}
use summer21_rusty_workers.Types
use summer21_rusty_workers.Types.{GenericResult}
use summer21_rusty_workers.Proxy.Apps.{AppConfig, KvNamespaceConfig}
use summer21_rusty_workers.Data.Kv.{Fate, executed, failed, unconfirmed, lost}
use summer21_rusty_workers.Data.Routes.{confirmed}

-- A row of `apps`, without its time.
pub record AppRow : Type 0 where
  pub bundle_id : Bytes
  pub env : Bytes
  pub kv_namespaces : Bytes

pub record AppTable : Type 1 where
  pub Db : Type 0
  -- select bundle_id, env, kv_namespaces from apps where id = ?
  pub select : Bytes → Db → Option AppRow
  -- insert into apps … on duplicate key update …
  pub insert_or_update : Bytes → AppRow → Db → Db
  -- delete from apps where id = ?
  pub delete : Bytes → Db → Db
  -- select bundle from bundles where id = ?
  pub select_bundle : Bytes → Db → Option Bytes
  -- insert into bundles …; `none` is the error that the id is there
  pub insert_bundle : Bytes → Bytes → Db → Option Db
  pub select-insert :
      (i k : Bytes) (r : AppRow) (db : Db)
      → select k (insert_or_update i r db) ≡ (if equals i k then some r else select k db)
  pub select-delete :
      (i k : Bytes) (db : Db) → select k (delete i db) ≡ (if equals i k then none else select k db)
  pub select_bundle-insert :
      (i k x : Bytes) (db after : Db)
      → insert_bundle i x db ≡ some after
      → select_bundle k after ≡ (if equals i k then some x else select_bundle k db)

-- `serde_json` on the two types: what is written can be read.
pub record Json : Type 0 where
  pub env_to_string : BtreeMap Bytes → Bytes
  pub env_from_str : Bytes → Option (BtreeMap Bytes)
  pub namespaces_to_string : List KvNamespaceConfig → Bytes
  pub namespaces_from_str : Bytes → Option (List KvNamespaceConfig)
  pub env-written : (m : BtreeMap Bytes) → env_from_str (env_to_string m) ≡ some m
  pub namespaces-written :
      (l : List KvNamespaceConfig) → namespaces_from_str (namespaces_to_string l) ≡ some l

module _ (t : AppTable) (json : Json) where
  open t use {Db, select, insert_or_update, delete, select_bundle, insert_bundle}

  -- An error of serde_json becomes one of the database, too.
  parsed :
      Bytes
      → AppRow
      → Option (BtreeMap Bytes)
      → Option (List KvNamespaceConfig)
      → GenericResult (Option AppConfig)
  parsed appid r (some env) (some kv_namespaces) = Types.GenericResult.ok (
      some
        (record { id = appid; bundle_id = r.bundle_id; env = env; kv_namespaces = kv_namespaces }))
  parsed appid r none namespaces = Types.GenericResult.err lost
  parsed appid r (some env) none = Types.GenericResult.err lost

  config_of : Bytes → Option AppRow → GenericResult (Option AppConfig)
  unfolding parsed
  config_of appid none = Types.GenericResult.ok none
  config_of appid (some r) =
      parsed appid r (json.env_from_str r.env) (json.namespaces_from_str r.kv_namespaces)

  pub app_metadata_get : Bool → Bytes → Db → GenericResult (Option AppConfig)
  unfolding config_of
  app_metadata_get works appid db =
      if works then config_of appid (select appid db) else Types.GenericResult.err lost

  row_of : AppConfig → AppRow
  row_of config = record {
    bundle_id = config.bundle_id;
    env = json.env_to_string config.env;
    kv_namespaces = json.namespaces_to_string config.kv_namespaces;
  }

  pub app_metadata_put : Fate → AppConfig → Db → GenericResult (Unit {0}) × Db
  unfolding row_of
  app_metadata_put fate config db =
      confirmed fate db (insert_or_update config.id (row_of config) db)

  pub app_metadata_delete : Fate → Bytes → Db → GenericResult (Unit {0}) × Db
  app_metadata_delete fate appid db = confirmed fate db (delete appid db)

  pub app_bundle_get : Bool → Bytes → Db → GenericResult (Option Bytes)
  app_bundle_get works id db =
      if works then Types.GenericResult.ok (select_bundle id db) else Types.GenericResult.err lost

  inserted : Fate → Db → Option Db → GenericResult (Unit {0}) × Db
  inserted fate db none = (Types.GenericResult.err lost, db)
  inserted fate db (some after) = confirmed fate db after

  pub app_bundle_put : Fate → Bytes → Bytes → Db → GenericResult (Unit {0}) × Db
  unfolding inserted
  app_bundle_put fate id value db = inserted fate db (insert_bundle id value db)
