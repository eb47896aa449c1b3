-- ===== src/Proxy/Apps/Tests.antt =====
-- An app in the cache that has changed in the database, and one that is looked up.
use summer21_rusty_workers.Prelude.{◌≡◌, refl, ap, sym, inl, Option, none, some, [], ◌∷◌}
use summer21_rusty_workers.Bytes.{Bytes, equals}
use summer21_rusty_workers.BtreeMap.{collect, collect_into, insert}
use summer21_rusty_workers.Types.{WorkerConfiguration}
use summer21_rusty_workers.Proxy.State.{AppState}
use summer21_rusty_workers.Proxy.LruCache.{LruCache}
use summer21_rusty_workers.Proxy.LruCache.Tests.{Entries, unbounded}
use summer21_rusty_workers.Proxy.RouteCache.{same_table}
use summer21_rusty_workers.Proxy.Apps.{
  AppConfig, Database, Seen, new_state, target_config, decode_kv_namespaces, same_app,
  remove_changed, check_apps,
}
use summer21_rusty_workers.Proxy.Apps.Current.{IsGoverned}
use summer21_rusty_workers.Proxy.Apps.Changed.{SeenIn, UpToDate, check_apps-UpToDate}

abbrev lru : LruCache AppState
lru = unbounded AppState

abbrev worker_conf : WorkerConfiguration
worker_conf = record {
  executor = record {
    max_ab_memory_mb = 1;
    max_time_ms = 50;
    max_io_concurrency = 2;
    max_io_per_request = 10;
  };
  fetch_service = [];
  env = [];
  kv_namespaces = [];
}

abbrev app_config : AppConfig
app_config = record {
  id = 7 ∷ [];
  bundle_id = 1 ∷ [];
  env = [];
  kv_namespaces = record { name = 3 ∷ []; id = 4 ∷ [] } ∷ [];
}

abbrev db : Database
db = record { metadata = λ id. some (some app_config); bundle = λ id. some (some (5 ∷ [])) }

abbrev nothing : Entries AppState
nothing k = none

nothing-IsGoverned : IsGoverned lru worker_conf nothing
nothing-IsGoverned id app e = cc

abbrev app : AppState
app = record {
  id = 7 ∷ [];
  config = record worker_conf { kv_namespaces = (3 ∷ [], 4 ∷ []) ∷ [] };
  bundle_id = 1 ∷ [];
  bundle = 5 ∷ [];
  ready_instances = [];
  start_time = 9;
}

abbrev one : Entries AppState
one k = some app

abbrev seen : Seen
seen = (7 ∷ [], app.bundle_id, app.config)

seen-SeenIn : SeenIn lru one seen
seen-SeenIn a e = (
  ap (λ (x : Option AppState). bundle_of x) (sym e),
  ap (λ (x : Option AppState). config_of x) (sym e),
)
  where
    bundle_of : Option AppState → Bytes
    bundle_of none = []
    bundle_of (some x) = x.bundle_id

    config_of : Option AppState → WorkerConfiguration
    config_of none = worker_conf
    config_of (some x) = x.config

stays : check_apps lru db (seen ∷ []) one (7 ∷ []) ≡ some app
unfolding check_apps remove_changed same_app same_table decode_kv_namespaces equals collect
    collect_into insert
stays = refl

check_apps-UpToDate_example : UpToDate lru (some app_config) app
check_apps-UpToDate_example =
    check_apps-UpToDate lru db (seen ∷ []) one seen (some app_config) app (inl refl) refl
      seen-SeenIn stays

-- new_state and target_config
looked_up : (new_state worker_conf 9 (7 ∷ []) app_config (5 ∷ [])).config ≡ app.config
unfolding new_state target_config decode_kv_namespaces collect collect_into insert equals
looked_up = refl
