-- ===== src/Proxy/Request/Served.antt =====
-- What is known of a request that has reached an instance.
use summer21_rusty_workers.Prelude.{
  ◌≡◌, ◌≤◌, refl, ap, sym, subst, ◌∙◌, Bool, true, false, Option, none, some, List, length, arith,
}
use summer21_rusty_workers.Bytes.{Bytes}
use summer21_rusty_workers.BtreeMap.{BtreeMap, collect}
use summer21_rusty_workers.Types.{WorkerConfiguration, RequestObject, binary}
use summer21_rusty_workers.Body.{Body, read_request_body}
use summer21_rusty_workers.Body.Limit.{
  contents, Reading, whole, exceeds, breaks, read_request_body-Reading,
}
use summer21_rusty_workers.Proxy.State.{
  LocalConfig, AppState, Outcome, ok, err, panic, sched, internal, ProxyError,
  request_body_too_large,
}
use summer21_rusty_workers.Proxy.Response.{Http}
use summer21_rusty_workers.Proxy.LruCache.{LruCache}
use summer21_rusty_workers.Proxy.LruCache.Keeps.{none-some}
use summer21_rusty_workers.Proxy.RouteCache
use summer21_rusty_workers.Proxy.RouteCache.{Table, find_app}
use summer21_rusty_workers.Proxy.RouteCache.Coherent.{IsCoherent}
use summer21_rusty_workers.Proxy.RouteCache.Routes.{find_app-routes}
use summer21_rusty_workers.Proxy.Routing.{LongestMatch}
use summer21_rusty_workers.Proxy.Apps.Current.{
  IsGoverned, Governed, do_lookup_app_background-IsGoverned,
}
use summer21_rusty_workers.Proxy.Dispatch.{Shared, dispatch}
use summer21_rusty_workers.Proxy.Request.{
  Incoming, Outside, Served, serve, ask_app, app_of, with_body, with_headers, with_app, with_host,
  handle_request,
}

ok-inj : {E : Type 0} {x y : Bytes} → ◌≡◌ {A = Body E} (Body.ok x) (Body.ok y) → x ≡ y
ok-inj e = ground arith

ok-err : {E : Type 0} {x : Bytes} {e : E} → ◌≡◌ {A = Body E} (Body.ok x) (Body.err e) → ⊥
ok-err q = cc

module _ (http : Http) (route_lru : LruCache Table) (app_lru : LruCache AppState) (c : LocalConfig)
    (worker_config : WorkerConfiguration) (o : Outside) where
  -- The request went to an app: of the longest prefix for its path among the rows of its host, with
  -- its own id and the limits of the proxy, with the whole body, which is within the limit.
  pub record Dispatched (r : Incoming) (out : Served http route_lru app_lru c worker_config o)
      : Type 0 where
    appid : Bytes
    rows : List (Bytes × Bytes)
    of_host : o.routes (RouteCache.host r.host) ≡ some rows
    routed : LongestMatch r.path (collect rows) appid
    app : AppState
    governed : Governed worker_config appid app
    full_body : Bytes
    is_whole : contents r.body ≡ some full_body
    within_limit : length full_body ≤ c.max_request_body_size_bytes
    headers : BtreeMap (List Bytes)
    result :
        let req : RequestObject = record {
          headers = headers;
          method = r.method;
          url = r.url;
          body = binary full_body;
        } in
        let d = dispatch http c app req o.attempts (o.shared appid) in out ≡ (d.0, some d.1)

  read-whole :
      (r : Incoming) (b : Bytes)
      → read_request_body c.max_request_body_size_bytes
          (sched request_body_too_large)
          internal
          r.body
        ≡ Body.ok b
      → (contents r.body ≡ some b) × (length b ≤ c.max_request_body_size_bytes)
  read-whole r b e = from (
      read_request_body-Reading c.max_request_body_size_bytes (sched request_body_too_large)
        internal r.body)
    where
      from :
          Reading c.max_request_body_size_bytes (sched request_body_too_large) internal r.body
          → (contents r.body ≡ some b) × (length b ≤ c.max_request_body_size_bytes)
      from (whole x all fits q) =
          let same : x ≡ b = ok-inj (sym q ∙ e) in
          (all ∙ ap some same, subst (λ y. length y ≤ c.max_request_body_size_bytes) same fits)
      from (exceeds x all over q) = absurd (ok-err (sym e ∙ q))
      from (breaks x all q) = absurd (ok-err (sym e ∙ q))

  ask_app-Governed :
      (appid : Bytes) (accepted : Bool) (found : Option AppState) (cache : app_lru.Cache)
      (app : AppState)
      → IsGoverned app_lru worker_config cache
      → found ≡ app_lru.peek appid cache
      → ask_app http route_lru app_lru c worker_config o appid accepted found cache ≡ some app
      → Governed worker_config appid app
  unfolding ask_app
  ask_app-Governed appid accepted (some a) cache app g f e = g appid app (sym f ∙ e)
  ask_app-Governed appid false none cache app g f e = cc
  ask_app-Governed appid true none cache app g f e =
      do_lookup_app_background-IsGoverned app_lru worker_config o.apps o.now appid cache g appid app
        (sym (app_lru.get-found appid _) ∙ e)

  app_of-Governed :
      (appid : Bytes) (cache : app_lru.Cache) (app : AppState)
      → IsGoverned app_lru worker_config cache
      → app_of http route_lru app_lru c worker_config o appid cache ≡ some app
      → Governed worker_config appid app
  unfolding app_of
  app_of-Governed appid cache app g e =
      ask_app-Governed appid o.app_queue _ (app_lru.get appid cache).1 app
        (λ i a p. g i a (sym (app_lru.peek-get appid i cache) ∙ p))
        (app_lru.get-found appid cache ∙ sym (app_lru.peek-get appid appid cache)) e

  serve-some :
      (req : RequestObject) (appid : Bytes) (found : Option AppState)
      (out : Served http route_lru app_lru c worker_config o) (s : Shared)
      → serve http route_lru app_lru c worker_config o req appid found ≡ out
      → out.1 ≡ some s
      → (app : AppState) × (found ≡ some app)
        × (let d = dispatch http c app req o.attempts (o.shared appid) in out ≡ (d.0, some d.1))
  unfolding serve
  serve-some req appid none out s e p = absurd (none-some (ap (λ x. x.1) e ∙ p))
  serve-some req appid (some app) out s e p = (app, refl, sym e)

  -- From the routed app on.
  record Sent (r : Incoming) (appid : Bytes) (out : Served http route_lru app_lru c worker_config o)
      : Type 0 where
    app : AppState
    governed : Governed worker_config appid app
    full_body : Bytes
    is_whole : contents r.body ≡ some full_body
    within_limit : length full_body ≤ c.max_request_body_size_bytes
    headers : BtreeMap (List Bytes)
    result :
        let req : RequestObject = record {
          headers = headers;
          method = r.method;
          url = r.url;
          body = binary full_body;
        } in
        let d = dispatch http c app req o.attempts (o.shared appid) in out ≡ (d.0, some d.1)

  with_body-Sent :
      (r : Incoming) (headers : BtreeMap (List Bytes)) (appid : Bytes) (cache : app_lru.Cache)
      (body : Body ProxyError) (out : Served http route_lru app_lru c worker_config o) (s : Shared)
      → IsGoverned app_lru worker_config cache
      → read_request_body c.max_request_body_size_bytes
          (sched request_body_too_large)
          internal
          r.body
        ≡ body
      → with_body http route_lru app_lru c worker_config o r headers appid cache body ≡ out
      → out.1 ≡ some s
      → Sent r appid out
  unfolding with_body
  with_body-Sent r headers appid cache (Body.err e) out s g b q p =
      absurd (none-some (ap (λ x. x.1) q ∙ p))
  with_body-Sent r headers appid cache (Body.ok full_body) out s g b q p =
      let (app, found, result) = serve-some _ appid _ out s q p in
      let (all, fits) = read-whole r full_body b in
      record {
        app = app;
        governed = app_of-Governed appid cache app g found;
        full_body = full_body;
        is_whole = all;
        within_limit = fits;
        headers = headers;
        result = result;
      }

  with_headers-Sent :
      (r : Incoming) (appid : Bytes) (cache : app_lru.Cache)
      (headers : Option (BtreeMap (List Bytes)))
      (out : Served http route_lru app_lru c worker_config o) (s : Shared)
      → IsGoverned app_lru worker_config cache
      → with_headers http route_lru app_lru c worker_config o r appid cache headers ≡ out
      → out.1 ≡ some s
      → Sent r appid out
  unfolding with_headers
  with_headers-Sent r appid cache none out s g q p = absurd (none-some (ap (λ x. x.1) q ∙ p))
  with_headers-Sent r appid cache (some headers) out s g q p =
      with_body-Sent r headers appid cache _ out s g refl q p

  with_app-Sent :
      (r : Incoming) (cache : app_lru.Cache) (found : Outcome Bytes)
      (out : Served http route_lru app_lru c worker_config o) (s : Shared)
      → IsGoverned app_lru worker_config cache
      → with_app http route_lru app_lru c worker_config o r cache found ≡ out
      → out.1 ≡ some s
      → (appid : Bytes) × (found ≡ ok appid) × Sent r appid out
  unfolding with_app
  with_app-Sent r cache (ok appid) out s g q p =
      (appid, refl, with_headers-Sent r appid cache r.headers out s g q p)
  with_app-Sent r cache (err e) out s g q p = absurd (none-some (ap (λ x. x.1) q ∙ p))
  with_app-Sent r cache panic out s g q p = absurd (none-some (ap (λ x. x.1) q ∙ p))

  with_host-Dispatched :
      (r : Incoming) (routes : route_lru.Cache) (apps : app_lru.Cache) (value : Option Bytes)
      (s : Shared)
      → IsCoherent route_lru o.routes routes
      → IsGoverned app_lru worker_config apps
      → (with_host http route_lru app_lru c worker_config o r routes apps
          (RouteCache.host r.host)
          value).1
        ≡ some s
      → Dispatched r (
          with_host http route_lru app_lru c worker_config o r routes apps
            (RouteCache.host r.host)
            value)
  unfolding with_host
  with_host-Dispatched r routes apps none s h g p = absurd (none-some p)
  with_host-Dispatched r routes apps (some v) s h g p =
      let (appid, found, sent) = with_app-Sent r apps _ _ s g refl p in
      let (rows, of_host, routed) =
        (find_app-routes route_lru o.routes o.route_queue (RouteCache.host r.host) r.path routes
            h).0
          appid found in
      record {
        appid = appid;
        rows = rows;
        of_host = of_host;
        routed = routed;
        app = sent.app;
        governed = sent.governed;
        full_body = sent.full_body;
        is_whole = sent.is_whole;
        within_limit = sent.within_limit;
        headers = sent.headers;
        result = sent.result;
      }

  -- Where the caches hold what the databases said and apps under the proxy's limits, a request that
  -- reaches the retry loop is sent to the app of the longest prefix for its path among the rows of its
  -- host, under the limits of the proxy, with its whole body, which is within the limit.
  pub handle_request-Dispatched :
      (routes : route_lru.Cache) (apps : app_lru.Cache) (r : Incoming) (s : Shared)
      → IsCoherent route_lru o.routes routes
      → IsGoverned app_lru worker_config apps
      → (handle_request http route_lru app_lru c worker_config o routes apps r).1 ≡ some s
      → Dispatched r (handle_request http route_lru app_lru c worker_config o routes apps r)
  unfolding handle_request
  handle_request-Dispatched routes apps r s h g p =
      with_host-Dispatched r routes apps (http.header_value (RouteCache.host r.host)) s h g p
