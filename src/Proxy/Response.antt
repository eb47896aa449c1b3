-- ===== src/Proxy/Response.antt =====
-- The response that the proxy builds: the end of the retry loop of `handle_request` and
-- `SchedError::build_response` of rusty-workers-proxy/src/sched.rs, and the service function of
-- rusty-workers-proxy/src/main.rs. hyper's header map is a parameter.
pub mod Seal
pub mod Tests
use summer21_rusty_workers.Prelude.{
  ℕ, ◌≡◌, Bool, Option, none, some, List, [], ◌∷◌, ltb, leb, ◌&&◌, if◌then◌else◌,
}
use summer21_rusty_workers.Bytes.{Bytes}
use summer21_rusty_workers.BtreeMap.{BtreeMap}
use summer21_rusty_workers.Types.{ResponseObject, HttpBody, binary}
use summer21_rusty_workers.Proxy.State.{
  SchedError, no_available_instance, no_route_mapping, request_body_too_large,
  request_failed_after_retries, sched, internal, Outcome, ok, err, panic,
}

abbrev pub server : Bytes
server = b's' ∷ b'e' ∷ b'r' ∷ b'v' ∷ b'e' ∷ b'r' ∷ []

abbrev pub rworkers : Bytes
rworkers = b'r' ∷ b'w' ∷ b'o' ∷ b'r' ∷ b'k' ∷ b'e' ∷ b'r' ∷ b's' ∷ []

-- hyper: header maps, and the parsers of names, values and status codes.
pub record Http : Type 1 where
  pub Headers : Type 0
  pub empty : Headers
  pub append : Bytes → Bytes → Headers → Headers
  pub insert : Bytes → Bytes → Headers → Headers
  pub get_all : Bytes → Headers → List Bytes
  pub header_name : Bytes → Option Bytes
  pub header_value : Bytes → Option Bytes
  pub get_all-insert : (k v : Bytes) (h : Headers) → get_all k (insert k v h) ≡ v ∷ []

body_bytes : HttpBody → Bytes
body_bytes (binary bytes) = bytes

-- StatusCode::from_u16 accepts 100 to 999.
is_status : ℕ → Bool
is_status n = leb 100 n && ltb n 1000

unfoldable pub status_code : SchedError → ℕ
status_code no_available_instance = 503
status_code no_route_mapping = 502
status_code request_body_too_large = 413
status_code request_failed_after_retries = 503

module _ (http : Http) where
  open http use {Headers, empty, append, insert, get_all, header_name, header_value, get_all-insert}

  pub record Response : Type 0 where
    pub status : ℕ
    pub headers : Headers
    pub body : Bytes

  append_value : Headers → Option Bytes → Option Bytes → Option Headers
  append_value h (some k) (some v) = some (append k v h)
  append_value h _ _ = none

  -- the inner `for` loop, over the values of one name; it parses the name for each value
  append_values : Bytes → List Bytes → Option Headers → Option Headers
  unfolding append_value
  append_values k vs none = none
  append_values k [] (some h) = some h
  append_values k (v ∷ vs) (some h) =
      append_values k vs (append_value h (header_name k) (header_value v))

  append_headers : BtreeMap (List Bytes) → Option Headers → Option Headers
  unfolding append_values
  append_headers [] h = h
  append_headers ((k, vs) ∷ m) h = append_headers m (append_values k vs h)

  sealed : ℕ → Bytes → Option Headers → Outcome Response
  sealed status body none = err internal
  sealed status body (some h) =
      ok (record { status = status; headers = insert server rworkers h; body = body })

  -- `// Build response.`
  pub respond : ResponseObject → Outcome Response
  unfolding append_headers sealed body_bytes is_status
  respond res =
      if is_status res.status
      then sealed res.status (body_bytes res.body) (append_headers res.headers (some empty))
      else err internal

  -- SchedError::build_response; the parameter is `canonical_reason`
  unfoldable pub build_response : (ℕ → Bytes) → SchedError → Response
  unfolding status_code
  build_response canonical_reason e =
      let status = status_code e in
      record {
        status = status;
        headers = insert server rworkers empty;
        body = canonical_reason status;
      }

  -- the service function of the proxy: an error becomes a response too, and a panic leaves none
  unfoldable pub service_fn : (ℕ → Bytes) → Bytes → Outcome Response → Option Response
  unfolding build_response
  service_fn canonical_reason message (ok res) = some res
  service_fn canonical_reason message (err (sched e)) = some (build_response canonical_reason e)
  service_fn canonical_reason message (err internal) =
      some (record { status = 500; headers = empty; body = message })
  service_fn canonical_reason message panic = none
