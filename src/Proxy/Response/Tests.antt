-- ===== src/Proxy/Response/Tests.antt =====
-- A header map as a list of names and values, and a worker's response that brings its own `server`.
use summer21_rusty_workers.Prelude.{◌≡◌, refl, some, List, [], ◌∷◌, if◌then◌else◌, arith}
use summer21_rusty_workers.Bytes.{Bytes, equals, equals_refl}
use summer21_rusty_workers.Types.{ResponseObject, binary}
use summer21_rusty_workers.Proxy.State.{ok, err, sched, no_available_instance}
use summer21_rusty_workers.Proxy.Response.{
  Http, Response, server, rworkers, respond, sealed, is_status, body_bytes, append_headers,
  append_values, append_value, service_fn, build_response, status_code,
}
use summer21_rusty_workers.Proxy.Response.Seal.{Sealed, respond-Sealed}

abbrev pub Fields : Type 0
Fields = List (Bytes × Bytes)

pub values : Bytes → Fields → List Bytes
values k [] = []
values k ((j, v) ∷ h) = let rest = values k h in if equals j k then v ∷ rest else rest

pub without : Bytes → Fields → Fields
without k [] = []
without k ((j, v) ∷ h) = let rest = without k h in if equals j k then rest else (j, v) ∷ rest

values-without : (k : Bytes) (h : Fields) → values k (without k h) ≡ []
unfolding values without
values-without k [] = refl
values-without k ((j, v) ∷ h) = ground (arith, values-without k h)

pub values-set : (k v : Bytes) (h : Fields) → values k ((k, v) ∷ without k h) ≡ v ∷ []
unfolding values
values-set k v h = rw (equals_refl k, values-without k h)

abbrev pub http : Http
http = record {
  Headers = Fields;
  empty = [];
  append = λ k v h. (k, v) ∷ h;
  insert = λ k v h. (k, v) ∷ without k h;
  get_all = values;
  header_name = some;
  header_value = some;
  get_all-insert = values-set;
}

abbrev res : ResponseObject
res = record { headers = (server, rworkers ∷ server ∷ []) ∷ []; status = 201; body = binary server }

abbrev out : Response http
out = record { status = 201; headers = (server, rworkers) ∷ []; body = server }

responded : respond http res ≡ ok out
unfolding respond sealed is_status body_bytes append_headers append_values append_value without
    equals
responded = refl

respond-Sealed_example : Sealed http res out
respond-Sealed_example = respond-Sealed http res out responded

-- service_fn
unavailable :
    service_fn http (λ n. n ∷ []) [] (err (sched no_available_instance))
    ≡ some (record { status = 503; headers = (server, rworkers) ∷ []; body = 503 ∷ [] })
unfolding service_fn build_response status_code without
unavailable = refl
