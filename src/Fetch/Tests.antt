-- ===== src/Fetch/Tests.antt =====
-- A fetch whose request has a `host` header and whose answer has a header twice.
use summer21_rusty_workers.Prelude.{refl, Option, none, some, List, [], ◌∷◌}
use summer21_rusty_workers.Bytes.{Bytes, equals, precedes}
use summer21_rusty_workers.BtreeMap
use summer21_rusty_workers.Types.{RequestObject, ResponseObject, binary}
use summer21_rusty_workers.Fetch.{
  host, Incoming, Http, run_fetch, target_request, target_response, or_fail, append_values,
  append_headers, remove_all, read_chunks, read_headers, push, or_empty,
}
use summer21_rusty_workers.Fetch.Fetched.{Fetched, run_fetch-Fetched}

abbrev age : Bytes
age = b'a' ∷ []

abbrev answer : Incoming
answer = record {
  status = 200;
  headers = (age, 1 ∷ []) ∷ (age, 2 ∷ []) ∷ [];
  chunks = some (3 ∷ []) ∷ some (4 ∷ []) ∷ [];
}

abbrev reply : List (Bytes × Bytes) → Option Incoming
reply [] = none
reply (line ∷ []) = some answer
reply (line ∷ next ∷ lines) = none

abbrev http : Http
http = record {
  parse_url = λ x. some x;
  parse_method = λ x. some x;
  header_name = λ x. some x;
  header_value = λ x. some x;
  to_str = λ x. some x;
  execute = λ r. reply r.headers;
}

abbrev request : RequestObject
request = record {
  headers = (age, (5 ∷ []) ∷ []) ∷ (host, (6 ∷ []) ∷ []) ∷ [];
  method = [];
  url = [];
  body = binary [];
}

abbrev response : ResponseObject
response = record {
  headers = (age, (1 ∷ []) ∷ (2 ∷ []) ∷ []) ∷ [];
  status = 200;
  body = binary (3 ∷ 4 ∷ []);
}

run_fetch-Fetched_example : Fetched http request response
unfolding run_fetch target_request target_response or_fail append_values append_headers remove_all
    read_chunks read_headers push or_empty BtreeMap.get BtreeMap.insert equals precedes
run_fetch-Fetched_example = run_fetch-Fetched http request response refl
