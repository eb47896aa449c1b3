-- ===== src/Proxy/Request.antt =====
-- `handle_request` of rusty-workers-proxy/src/sched.rs as a whole: the app of the host and path, the
-- body within its limit, the state of the app, and the retry loop. Between its steps nothing else
-- touches the two caches.
pub mod Served
mod Tests
use summer21_rusty_workers.Prelude.{ℕ, Bool, true, false, Option, none, some, List, ◌++◌}
use summer21_rusty_workers.Bytes.{Bytes}
use summer21_rusty_workers.BtreeMap.{BtreeMap}
use summer21_rusty_workers.Types.{WorkerConfiguration, RequestObject, binary}
use summer21_rusty_workers.Body
use summer21_rusty_workers.Body.{Chunk, Body, read_request_body}
use summer21_rusty_workers.Proxy.State.{
  LocalConfig, AppState, Outcome, ok, err, panic, sched, internal, ProxyError, no_route_mapping,
  request_body_too_large,
}
use summer21_rusty_workers.Proxy.Response.{Http, Response}
use summer21_rusty_workers.Proxy.LruCache.{LruCache}
use summer21_rusty_workers.Proxy.RouteCache
use summer21_rusty_workers.Proxy.RouteCache.{Table, find_app}
use summer21_rusty_workers.Proxy.Apps
use summer21_rusty_workers.Proxy.Apps.{do_lookup_app_background}
use summer21_rusty_workers.Proxy.Dispatch.{Shared, Attempt, dispatch}

-- A request of a client. `headers` is `none` if the value of a header is not a text, and the URL is the
-- text that is made of the host and the URI.
pub record Incoming : Type 0 where
  pub host : Option Bytes
  pub path : Bytes
  pub method : Bytes
  pub url : Bytes
  pub headers : Option (BtreeMap (List Bytes))
  pub body : List Chunk

-- What a request meets outside: the databases, whether the two queues of lookups have room, the clock,
-- what the requests of an app share, and the attempts.
pub record Outside : Type 0 where
  pub routes : RouteCache.Database
  pub apps : Apps.Database
  pub route_queue : Bool
  pub app_queue : Bool
  pub now : ℕ
  pub shared : Bytes → Shared
  pub attempts : ℕ → Attempt

module _ (http : Http) (route_lru : LruCache Table) (app_lru : LruCache AppState) (c : LocalConfig)
    (worker_config : WorkerConfiguration) (o : Outside) where
  abbrev pub AppCache : Type 0
  AppCache = app_lru.Cache

  abbrev pub RouteCaches : Type 0
  RouteCaches = route_lru.Cache

  abbrev pub Served : Type 0
  Served = Outcome (Response http) × Option Shared

  serve : RequestObject → Bytes → Option AppState → Served
  serve req appid none = (err (sched no_route_mapping), none)
  serve req appid (some app) =
      let (r, s) = dispatch http c app req o.attempts (o.shared appid) in (r, some s)

  -- the second look at the cache of apps
  ask_app : Bytes → Bool → Option AppState → AppCache → Option AppState
  ask_app appid accepted (some app) cache = some app
  ask_app appid false none cache = none
  ask_app appid true none cache =
      (app_lru.get appid
        (do_lookup_app_background app_lru worker_config o.apps o.now appid cache)).0

  -- `self.apps.lock().await.get(&appid)` and what follows on a miss
  app_of : Bytes → AppCache → Option AppState
  unfolding ask_app
  app_of appid cache =
      let (app, cache') = app_lru.get appid cache in ask_app appid o.app_queue app cache'

  with_body : Incoming → BtreeMap (List Bytes) → Bytes → AppCache → Body ProxyError → Served
  unfolding app_of serve
  with_body r headers appid cache (Body.err e) = (err e, none)
  with_body r headers appid cache (Body.ok full_body) =
      serve (record { headers = headers; method = r.method; url = r.url; body = binary full_body })
        appid (app_of appid cache)

  with_headers : Incoming → Bytes → AppCache → Option (BtreeMap (List Bytes)) → Served
  unfolding with_body
  with_headers r appid cache none = (err internal, none)
  with_headers r appid cache (some headers) = with_body r headers appid cache (
      read_request_body c.max_request_body_size_bytes (sched request_body_too_large) internal
        r.body)

  with_app : Incoming → AppCache → Outcome Bytes → Served
  unfolding with_headers
  with_app r cache (ok appid) = with_headers r appid cache r.headers
  with_app r cache (err e) = (err e, none)
  with_app r cache panic = (panic, none)

  with_host : Incoming → RouteCaches → AppCache → Bytes → Option Bytes → Served
  unfolding with_app
  with_host r routes apps domain none = (err internal, none)
  with_host r routes apps domain (some v) =
      with_app r apps (find_app route_lru o.routes o.route_queue domain r.path routes).0

  -- Scheduler::handle_request: the outcome, and what the requests of the app share then
  pub handle_request : RouteCaches → AppCache → Incoming → Served
  unfolding with_host
  handle_request routes apps r =
      let domain = RouteCache.host r.host in
      with_host r routes apps domain (http.header_value domain)
