-- ===== src/Proxy/Tests.antt =====
-- An app with two ready instances, of which the older one has expired, and a request for it.
use summer21_rusty_workers.Prelude.{
  map, ℕ, ◌+◌, ◌^◌, ◌<◌, ◌≡◌, refl, true, Option, none, some, List, [], ◌∷◌, arith, sum, length,
  if◌then◌else◌, ltb,
}
use summer21_rusty_workers.BtreeMap
use summer21_rusty_workers.BtreeMap.{BtreeMap, IsSorted}
use summer21_rusty_workers.Bytes.{precedes}
use summer21_rusty_workers.Proxy.Clients.{Reply, query_runtimes, discover_runtimes, greet}
use summer21_rusty_workers.Proxy.Clients.Known.{
  and_then, known_or, first_greeted, query_runtimes-get, discover_runtimes-get,
}
use summer21_rusty_workers.Types
use summer21_rusty_workers.Types.{
  ExecutorConfiguration, WorkerConfiguration, WorkerHandle, RequestObject, binary, default_response,
  time_limit_exceeded,
}
use summer21_rusty_workers.Proxy.State.{LocalConfig, RtState, ReadyInstance, AppState}
use summer21_rusty_workers.Proxy.Instance.{Sampler, Surroundings, create_instance, get_instance}
use summer21_rusty_workers.Proxy.Instance.Choice.{
  Chosen, Created, get_instance-Chosen, create_instance-Created,
}
use summer21_rusty_workers.Proxy.Dispatch.{Shared, Attempt, judge, dispatch}
use summer21_rusty_workers.Proxy.Dispatch.Retries.{Ending, dispatch-Ending}
use summer21_rusty_workers.Proxy.Dispatch.Ownership.{Settled, judge-Settled}
use summer21_rusty_workers.Proxy.Response.Tests.{http}

abbrev pub conf : LocalConfig
conf = record {
  runtime_cluster = [];
  max_ready_instances_per_app = 2;
  ready_instance_expiration_ms = 1;
  request_timeout_ms = 1000;
  max_request_body_size_bytes = 1024;
  route_cache_size = 10;
  app_cache_size = 10;
}

pub first : List ℕ → Option ℕ
first [] = none
first (w ∷ ws) = some 0

pub first-accepts :
    (ws : List ℕ) → 0 < sum ws → sum ws < 2 ^ 32 → (i : ℕ) × (first ws ≡ some i) × (i < length ws)
unfolding first
first-accepts [] h _ = absurd (omega arith)
first-accepts (w ∷ ws) h _ = (0, refl, omega arith)

abbrev pub sampler : Sampler
sampler = record { sample = first; accepts = first-accepts }

abbrev pub instance_of : ℕ → ℕ → ReadyInstance
instance_of n last_active = record {
  rtid = n ∷ [];
  last_active = last_active;
  handle = record { id = n ∷ [] };
  client = n;
}

abbrev pub surroundings : Surroundings
surroundings = record {
  clock = λ i. 3000000 + i;
  meanwhile = λ q. q;
  now = 3000010;
  sampler = sampler;
  spawn_worker = λ client id c bundle. some (Types.GenericResult.ok (record { id = id }));
}

abbrev pub worker_conf : WorkerConfiguration
worker_conf = record {
  executor = record {
    max_ab_memory_mb = 1;
    max_time_ms = 50;
    max_io_concurrency = 2;
    max_io_per_request = 10;
  };
  fetch_service = [];
  env = [];
  kv_namespaces = [];
}

abbrev pub app : AppState
app = record {
  id = 7 ∷ [];
  config = worker_conf;
  bundle_id = [];
  bundle = [];
  ready_instances = instance_of 1 5 ∷ instance_of 2 2999990 ∷ [];
  start_time = 0;
}

abbrev pub clients : BtreeMap RtState
clients =
    (1 ∷ [], record { client = 1; load = 100 }) ∷ (2 ∷ [], record { client = 2; load = 0 }) ∷ []

abbrev req : RequestObject
req = record { headers = []; method = []; url = []; body = binary [] }

abbrev pub shared : Shared
shared = record { ready = app.ready_instances; clients = clients; terminated = [] }

-- The first fetch fails, the second one is answered.
abbrev pub attempts : ℕ → Attempt
attempts i = record {
  surroundings = surroundings;
  waiting = λ s. s;
  fetch = λ inst r.
      if ltb 0 i
      then some (Types.ExecutionResult.ok (record default_response { status = 200 }))
      else none;
  stays = true;
  clock = λ k. 3000020 + k;
}

dispatch-Ending_example :
    Ending http conf app req attempts 0 3 shared (dispatch http conf app req attempts shared)
dispatch-Ending_example = dispatch-Ending http conf app req attempts shared

judge-Settled_example :
    Settled conf
      (attempts 0)
      (instance_of 3 0)
      (some (Types.ExecutionResult.err time_limit_exceeded))
      shared
      (judge http conf
        (attempts 0)
        (instance_of 3 0)
        (some (Types.ExecutionResult.err time_limit_exceeded))
        shared).1
judge-Settled_example =
    judge-Settled http conf (attempts 0) (instance_of 3 0) shared
      (some (Types.ExecutionResult.err time_limit_exceeded))

get_instance-Chosen_example :
    Chosen conf surroundings app clients (get_instance conf surroundings app clients)
get_instance-Chosen_example = get_instance-Chosen conf surroundings app clients (λ q. refl)

create_instance-Created_example :
    Created surroundings app clients (create_instance surroundings app clients)
create_instance-Created_example =
    create_instance-Created surroundings app clients (λ h. cc) (omega arith)

-- The first runtime answers, the second does not.
abbrev load_of : RtState → Reply
load_of rt = if ltb 1 rt.client then none else some (Types.GenericResult.ok 250)

clients-IsSorted : IsSorted clients
unfolding precedes
clients-IsSorted = ((refl, tt), (tt, tt))

query_runtimes-get_example :
    BtreeMap.get (1 ∷ []) (query_runtimes (λ m. m) load_of clients)
    ≡ and_then load_of (BtreeMap.get (1 ∷ []) clients)
query_runtimes-get_example = query_runtimes-get load_of clients (1 ∷ []) clients-IsSorted

discover_runtimes-get_example :
    BtreeMap.get
      (9 ∷ [])
      (discover_runtimes (λ addr. some 5) (λ client. some (9 ∷ [])) ((0 ∷ []) ∷ []) clients)
    ≡ known_or (BtreeMap.get (9 ∷ []) clients) (
        first_greeted
          (9 ∷ [])
          (map (greet (λ addr. some 5) (λ client. some (9 ∷ []))) ((0 ∷ []) ∷ [])))
discover_runtimes-get_example =
    discover_runtimes-get (λ addr. some 5) (λ client. some (9 ∷ [])) ((0 ∷ []) ∷ []) clients
      (9 ∷ [])
