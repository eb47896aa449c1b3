-- ===== src/Proxy/Apps.antt =====
-- The cache of apps in rusty-workers-proxy/src/sched.rs: `do_lookup_app_background`, a pass of
-- `apps_gc_task`, and `decode_kv_namespaces`. What the database gives is an argument; `none` is an
-- error, and `some none` a missing row.
pub mod Current
pub mod Changed
mod Tests
use summer21_rusty_workers.Prelude.{
  ℕ, Bool, true, false, ◌&&◌, Option, none, some, List, [], ◌∷◌, map, if◌then◌else◌,
}
use summer21_rusty_workers.Bytes.{Bytes, equals}
use summer21_rusty_workers.BtreeMap.{BtreeMap, collect}
use summer21_rusty_workers.Types.{WorkerConfiguration}
use summer21_rusty_workers.Proxy.State.{AppState}
use summer21_rusty_workers.Proxy.LruCache.{LruCache}
use summer21_rusty_workers.Proxy.RouteCache.{same_table}

-- rusty-workers/src/app.rs
pub record KvNamespaceConfig : Type 0 where
  pub name : Bytes
  pub id : Bytes

pub record AppConfig : Type 0 where
  pub id : Bytes
  pub bundle_id : Bytes
  pub env : BtreeMap Bytes
  pub kv_namespaces : List KvNamespaceConfig

-- app_metadata_get and app_bundle_get
pub record Database : Type 0 where
  pub metadata : Bytes → Option (Option AppConfig)
  pub bundle : Bytes → Option (Option Bytes)

-- fn decode_kv_namespaces
pub decode_kv_namespaces : List KvNamespaceConfig → BtreeMap Bytes
decode_kv_namespaces namespaces = collect (map (λ x. (x.name, x.id)) namespaces)

-- `target_config`
pub target_config : WorkerConfiguration → AppConfig → WorkerConfiguration
unfolding decode_kv_namespaces
target_config worker_config config = record worker_config {
  env = config.env;
  kv_namespaces = decode_kv_namespaces config.kv_namespaces;
}

-- The state of an app that is looked up at a time.
pub new_state : WorkerConfiguration → ℕ → Bytes → AppConfig → Bytes → AppState
unfolding target_config
new_state worker_config now id config bundle = record {
  id = id;
  config = target_config worker_config config;
  bundle_id = config.bundle_id;
  bundle = bundle;
  ready_instances = [];
  start_time = now;
}

-- the negation of the condition under which `apps_gc_task` removes an app
pub same_app : AppConfig → Bytes → WorkerConfiguration → Bool
unfolding decode_kv_namespaces
same_app config bundle_id worker_config =
    equals config.bundle_id bundle_id
    && (same_table config.env worker_config.env
        && same_table (decode_kv_namespaces config.kv_namespaces) worker_config.kv_namespaces)

-- What a pass of `apps_gc_task` copies of an app at its start.
abbrev pub Seen : Type 0
Seen = Bytes × Bytes × WorkerConfiguration

module _ (lru : LruCache AppState) where
  open lru use {Cache, get, insert, remove}

  store_app : WorkerConfiguration → ℕ → Bytes → AppConfig → Option (Option Bytes) → Cache → Cache
  unfolding new_state
  store_app worker_config now id config none cache = cache
  store_app worker_config now id config (some none) cache = cache
  store_app worker_config now id config (some (some bundle)) cache =
      insert id (new_state worker_config now id config bundle) cache

  fetch_app : WorkerConfiguration → Database → ℕ → Bytes → Option (Option AppConfig) → Cache → Cache
  unfolding store_app
  fetch_app worker_config db now id none cache = cache
  fetch_app worker_config db now id (some none) cache = cache
  fetch_app worker_config db now id (some (some config)) cache =
      store_app worker_config now id config (db.bundle config.bundle_id) cache

  unless_there : WorkerConfiguration → Database → ℕ → Bytes → Option AppState × Cache → Cache
  unfolding fetch_app
  unless_there worker_config db now id (some app, cache) = cache
  unless_there worker_config db now id (none, cache) =
      fetch_app worker_config db now id (db.metadata id) cache

  -- do_lookup_app_background, where nothing else touches the cache meanwhile
  pub do_lookup_app_background : WorkerConfiguration → Database → ℕ → Bytes → Cache → Cache
  unfolding unless_there
  do_lookup_app_background worker_config db now id cache =
      unless_there worker_config db now id (get id cache)

  remove_changed : Seen → Option (Option AppConfig) → Cache → Cache
  unfolding same_app
  remove_changed (id, bundle_id, config) none cache = cache
  remove_changed (id, bundle_id, config) (some none) cache = remove id cache
  remove_changed (id, bundle_id, config) (some (some c)) cache =
      if same_app c bundle_id config then cache else remove id cache

  -- a pass of `apps_gc_task` over the apps that were cached at its start
  pub check_apps : Database → List Seen → Cache → Cache
  unfolding remove_changed
  check_apps db [] cache = cache
  check_apps db (seen ∷ apps) cache =
      check_apps db apps (remove_changed seen (db.metadata seen.0) cache)
