-- ===== src/Proxy/Request/Tests.antt =====
-- A request whose host and app are in the caches.
use summer21_rusty_workers.Prelude.{
  some-inj, ◌≡◌, refl, subst, true, Bool-cases, inl, inr, none, some, List, [], ◌∷◌, arith,
}
use summer21_rusty_workers.Bytes.{Bytes, equals, starts_with, equals→eq}
use summer21_rusty_workers.BtreeMap.{collect, collect_into, insert}
use summer21_rusty_workers.Body.{bytes, read_request_body, read_chunks, read_chunk, finish}
use summer21_rusty_workers.Types.{RequestObject, binary}
use summer21_rusty_workers.Proxy.State.{AppState}
use summer21_rusty_workers.Proxy.Routing.{lookup_submappings, first_match}
use summer21_rusty_workers.Proxy.LruCache.Tests.{Entries, set, unbounded}
use summer21_rusty_workers.Proxy.RouteCache.{
  Table, host, until_colon, find_app, or_ask, lookup_cached, in_table,
}
use summer21_rusty_workers.Proxy.RouteCache.Coherent.{IsCoherent}
use summer21_rusty_workers.Proxy.Apps.Current.{IsGoverned, Governed}
use summer21_rusty_workers.Proxy.LruCache.Keeps.{}
use summer21_rusty_workers.Proxy.Response.Tests.{http}
use summer21_rusty_workers.Proxy.Dispatch.{dispatch}
use summer21_rusty_workers.Proxy.Tests.{conf, worker_conf, attempts, app, shared}
use summer21_rusty_workers.Proxy.Request.{
  Incoming, Outside, serve, ask_app, app_of, with_body, with_headers, with_app, with_host,
  handle_request,
}
use summer21_rusty_workers.Proxy.Request.Served.{Dispatched, handle_request-Dispatched}

abbrev rows : List (Bytes × Bytes)
rows = (b'/' ∷ [], 7 ∷ []) ∷ []

abbrev outside : Outside
outside = record {
  routes = λ domain. some rows;
  apps = record { metadata = λ id. none; bundle = λ id. none };
  route_queue = true;
  app_queue = true;
  now = 0;
  shared = λ id. shared;
  attempts = attempts;
}

abbrev routes : Entries Table
routes domain = some (collect rows)

abbrev apps : Entries AppState
apps = set (7 ∷ []) (some app) (λ k. none)

abbrev incoming : Incoming
incoming = record {
  host = some (b'a' ∷ b':' ∷ b'8' ∷ []);
  path = b'/' ∷ b'x' ∷ [];
  method = [];
  url = [];
  headers = some [];
  body = bytes (1 ∷ 2 ∷ []) ∷ [];
}

abbrev req : RequestObject
req = record { headers = []; method = []; url = []; body = binary (1 ∷ 2 ∷ []) }

routes-IsCoherent : IsCoherent (unbounded Table) outside.routes routes
routes-IsCoherent domain m e = (rows, refl, ground arith)

app-Governed : Governed worker_conf (7 ∷ []) app
app-Governed = record { own_id = refl; same_limits = refl; same_service = refl }

apps-IsGoverned : IsGoverned (unbounded AppState) worker_conf apps
apps-IsGoverned id a e = elim (Bool-cases (equals (7 ∷ []) id)) [
  | inl y ↦
      let it : app ≡ a = some-inj (rw y at e) in
      subst (λ x. Governed worker_conf x a) (equals→eq (7 ∷ []) id y)
        (subst (Governed worker_conf (7 ∷ [])) it app-Governed)
  | inr n ↦ absurd (ground arith)
]

sent :
    (handle_request http
      (unbounded Table)
      (unbounded AppState)
      conf
      worker_conf
      outside
      routes
      apps
      incoming).1
    ≡ some (dispatch http conf app req attempts shared).1
unfolding handle_request with_host with_app with_headers with_body app_of serve ask_app find_app
    or_ask lookup_cached in_table lookup_submappings first_match host until_colon collect
    collect_into insert equals starts_with read_request_body read_chunks read_chunk finish
sent = refl

handle_request-Dispatched_example :
    Dispatched http (unbounded Table) (unbounded AppState) conf worker_conf outside incoming (
      handle_request http
        (unbounded Table)
        (unbounded AppState)
        conf
        worker_conf
        outside
        routes
        apps
        incoming)
handle_request-Dispatched_example =
    handle_request-Dispatched http (unbounded Table) (unbounded AppState) conf worker_conf outside
      routes apps incoming _ routes-IsCoherent apps-IsGoverned sent
