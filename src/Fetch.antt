-- ===== src/Fetch.antt =====
-- rusty-workers-fetchd/src/server.rs: the HTTP requests that workers make. reqwest is a parameter.
pub mod Fetched
mod Tests
use summer21_rusty_workers.Prelude.{
  ℕ, ◌+◌, ◌*◌, Bool, true, false, Option, none, some, List, [], ◌∷◌, ◌++◌, length, ltb,
  if◌then◌else◌,
}
use summer21_rusty_workers.Bytes.{Bytes, equals}
use summer21_rusty_workers.BtreeMap
use summer21_rusty_workers.BtreeMap.{BtreeMap}
use summer21_rusty_workers.Types.{RequestObject, ResponseObject, HttpBody, binary}

abbrev pub max_response_body_size : ℕ
max_response_body_size = 1048576 * 8

abbrev pub host : Bytes
host = b'h' ∷ b'o' ∷ b's' ∷ b't' ∷ []

-- What stops a fetch.
pub data FetchError : Type 0 where
  response_body_too_large : FetchError
  bad_url bad_method bad_header not_sent broken not_a_text : FetchError

pub data Result {ℓ} (A : Type ℓ) : Type ℓ where
  ok : A → Result A
  err : FetchError → Result A

infixl 5 ◌>>=◌
abbrev pub ◌>>=◌ {ℓ} : {A B : Type ℓ} → Result A → (A → Result B) → Result B
ok a >>= f = f a
err e >>= f = err e

-- A `reqwest::Request`; a `HeaderMap` is the list of its entries, in the order in which they came.
pub record Outgoing : Type 0 where
  pub method : Bytes
  pub url : Bytes
  pub headers : List (Bytes × Bytes)
  pub body : Bytes

-- A `reqwest::Response`. A chunk that is `none` is an error of the connection.
pub record Incoming : Type 0 where
  pub status : ℕ
  pub headers : List (Bytes × Bytes)
  pub chunks : List (Option Bytes)

pub record Http : Type 0 where
  pub parse_url : Bytes → Option Bytes
  pub parse_method : Bytes → Option Bytes
  pub header_name : Bytes → Option Bytes
  pub header_value : Bytes → Option Bytes
  pub to_str : Bytes → Option Bytes
  pub execute : Outgoing → Option Incoming

unfoldable pub or_fail {ℓ} : {A : Type ℓ} → FetchError → Option A → Result A
or_fail e none = err e
or_fail e (some a) = ok a

-- The lines of one header of the request.
append_values : Http → Bytes → List Bytes → Result (List (Bytes × Bytes))
unfolding or_fail
append_values http k [] = ok []
append_values http k (item ∷ v) =
    let rest = append_values http k v in
    do
      name ← or_fail bad_header (http.header_name k)
      value ← or_fail bad_header (http.header_value item)
      others ← rest
      ok ((name, value) ∷ others)

append_headers : Http → BtreeMap (List Bytes) → Result (List (Bytes × Bytes))
unfolding append_values
append_headers http [] = ok []
append_headers http ((k, v) ∷ headers) =
    let rest = append_headers http headers in
    do first ← append_values http k v; others ← rest; ok (first ++ others)

-- HeaderMap::remove
remove_all : Bytes → List (Bytes × Bytes) → List (Bytes × Bytes)
remove_all name [] = []
remove_all name ((k, v) ∷ headers) =
    let rest = remove_all name headers in if equals k name then rest else (k, v) ∷ rest

abbrev pub body_of : HttpBody → Bytes
body_of (binary bytes) = bytes

-- the request up to `execute`
target_request : Http → RequestObject → Result Outgoing
unfolding or_fail append_headers remove_all
target_request http req = do
  url ← or_fail bad_url (http.parse_url req.url)
  method ← or_fail bad_method (http.parse_method req.method)
  headers ← append_headers http req.headers
  ok (record {
    method = method;
    url = url;
    headers = remove_all host headers;
    body = body_of req.body;
  })

-- the loop over the chunks
read_chunks : Bytes → List (Option Bytes) → Result Bytes
read_chunks body [] = ok body
read_chunks body (none ∷ chunks) = err broken
read_chunks body (some chunk ∷ chunks) =
    let rest = read_chunks (body ++ chunk) chunks in
    if ltb max_response_body_size (length (body ++ chunk))
    then err response_body_too_large
    else rest

pub or_empty : Option (List Bytes) → List Bytes
or_empty none = []
or_empty (some l) = l

-- entry(…).or_insert(vec![]).push(…)
push : Bytes → Bytes → BtreeMap (List Bytes) → BtreeMap (List Bytes)
unfolding or_empty
push k v headers = BtreeMap.insert k (or_empty (BtreeMap.get k headers) ++ v ∷ []) headers

-- the loop over the headers of the response
read_headers : Http → BtreeMap (List Bytes) → List (Bytes × Bytes) → Result (BtreeMap (List Bytes))
unfolding or_fail push
read_headers http headers [] = ok headers
read_headers http headers ((k, v) ∷ lines) = do
  value ← or_fail not_a_text (http.to_str v)
  read_headers http (push k value headers) lines

-- the response from `execute` on
target_response : Http → Incoming → Result ResponseObject
unfolding read_chunks read_headers
target_response http res = do
  body ← read_chunks [] res.chunks
  headers ← read_headers http [] res.headers
  ok (record { headers = headers; status = res.status; body = binary body })

pub run_fetch : Http → RequestObject → Result ResponseObject
unfolding or_fail target_request target_response
run_fetch http req = do
  target ← target_request http req
  res ← or_fail not_sent (http.execute target)
  target_response http res

-- FetchServer::fetch, where the text of an error is left out
pub fetch : Http → RequestObject → Option ResponseObject
unfolding run_fetch
fetch http req = elim (run_fetch http req) [ ok res ↦ some res | err e ↦ none ]
