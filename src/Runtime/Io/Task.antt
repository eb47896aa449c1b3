-- ===== src/Runtime/Io/Task.antt =====
-- `handle_task` of rusty-workers-runtime/src/io.rs in two halves: what a call asks the data service,
-- the fetch service or the timer for, and the reply that the worker gets. A buffer is the bytes of
-- the view that `JsArrayBufferViewRef` gives.
pub mod Limits
pub mod Pairs
pub mod Key
mod Tests
use summer21_rusty_workers.Prelude.{
  ℕ, zero, suc, ◌+◌, ◌*◌, ◌%◌, ◌^◌, Bool, true, false, Option, none, some, List, [], ◌∷◌, length,
  get_elem?, ltb, if◌then◌else◌,
}
use summer21_rusty_workers.Bytes.{Bytes}
use summer21_rusty_workers.BtreeMap
use summer21_rusty_workers.BtreeMap.{BtreeMap}
pub use summer21_rusty_workers.Data.Call.{
  DataCall, worker_data_get, worker_data_put, worker_data_delete, worker_data_scan_keys,
  worker_data_cmpupdate,
}
use summer21_rusty_workers.Types.{WorkerConfiguration, RequestObject, ResponseObject, binary}

abbrev pub max_kv_key_size : ℕ
max_kv_key_size = 2048

abbrev pub max_kv_value_size : ℕ
max_kv_value_size = 4 * 1024 * 1024

abbrev pub max_fetch_request_body_size : ℕ
max_fetch_request_body_size = 2 * 1024 * 1024

abbrev pub max_kv_scan_limit : ℕ
max_kv_scan_limit = 100

-- interface.rs
pub data AsyncCallV : Type 0 where
  set_timeout : ℕ → AsyncCallV
  fetch : RequestObject → AsyncCallV
  kv_get : Bytes → AsyncCallV
  kv_put : Bytes → Bool → ℕ → AsyncCallV
  kv_delete : Bytes → AsyncCallV
  kv_scan : Bytes → ℕ → AsyncCallV
  kv_cmp_update : Bytes → ℕ → ℕ → ℕ → AsyncCallV

pub record AsyncCall : Type 0 where
  pub v : AsyncCallV
  pub buffers : List Bytes

-- the texts of `mk_user_error`
pub data UserError : Type 0 where
  fetch_request_body_too_large key_too_large value_too_large start_key_too_large end_key_too_large
        namespace_does_not_exist limit_is_greater_than_max :
      UserError

-- the texts of `GenericError::Other`
pub data Missing : Type 0 where
  missing_body missing_key missing_value missing_start_key : Missing

-- How far a call goes by itself.
pub data Request : Type 0 where
  sleep : ℕ → Request
  send : RequestObject → Request
  ask : DataCall → Request
  refuse : UserError → Request
  fail : Missing → Request

-- A value, or an early return.
pub data Step (A : Type 0) : Type 0 where
  go : A → Step A
  refused : UserError → Step A
  failed : Missing → Step A

infixl 5 ◌>>=◌
abbrev pub ◌>>=◌ : {A B : Type 0} → Step A → (A → Step B) → Step B
go a >>= f = f a
refused e >>= f = refused e
failed m >>= f = failed m

-- JsArrayBufferViewRef::read_to_vec
unfoldable pub read_to_vec : ℕ → Bytes → Option Bytes
read_to_vec max_length source = if ltb max_length (length source) then none else some source

pub or_refuse : {A : Type 0} → UserError → Option A → Step A
or_refuse e none = refused e
or_refuse e (some a) = go a

pub read_buffer : Option Bytes → Missing → ℕ → UserError → Step Bytes
unfolding read_to_vec or_refuse
read_buffer none m max_length e = failed m
read_buffer (some buf) m max_length e = or_refuse e (read_to_vec max_length buf)

-- the optional end of a scan
read_end : Option Bytes → Step (Option Bytes)
unfolding read_to_vec
read_end none = go none
read_end (some buf) = elim (read_to_vec max_kv_key_size buf) [
  | none ↦ refused end_key_too_large
  | some x ↦ go (some x)
]

pub namespace_id : WorkerConfiguration → Bytes → Step Bytes
unfolding or_refuse
namespace_id conf namespace =
    or_refuse namespace_does_not_exist (BtreeMap.get namespace conf.kv_namespaces)

-- Whether the pair number i is an assertion or a write.
add_pair :
    Bool
    → Bytes × Bytes
    → List (Bytes × Bytes) × List (Bytes × Bytes)
    → List (Bytes × Bytes) × List (Bytes × Bytes)
add_pair true p (assertions, writes) = (p ∷ assertions, writes)
add_pair false p (assertions, writes) = (assertions, p ∷ writes)

-- the `for` loop of KvCmpUpdate from number i on; what it pushes comes in front of what follows
read_pairs : List Bytes → ℕ → ℕ → ℕ → ℕ → Step (List (Bytes × Bytes) × List (Bytes × Bytes))
read_pairs buffers num_assertions zero i index = go ([], [])
read_pairs buffers num_assertions (suc left) i index =
    let rest = read_pairs buffers num_assertions left (i + 1) (index + 2) in
    do
      key ← read_buffer (get_elem? buffers index) missing_key max_kv_key_size key_too_large
      value ←
          read_buffer (get_elem? buffers (index + 1)) missing_value max_kv_value_size
            value_too_large
      pairs ← rest
      go (add_pair (ltb i num_assertions) (key, value) pairs)

pub prepare : WorkerConfiguration → AsyncCallV → List Bytes → Step Request
prepare conf (set_timeout n) buffers = go (sleep n)
prepare conf (fetch req) buffers = do
  body ←
      read_buffer (get_elem? buffers 0) missing_body max_fetch_request_body_size
        fetch_request_body_too_large
  go (send (record req { body = binary body }))
prepare conf (kv_get namespace) buffers = do
  key ← read_buffer (get_elem? buffers 0) missing_key max_kv_key_size key_too_large
  id ← namespace_id conf namespace
  go (ask (worker_data_get id key))
prepare conf (kv_put namespace if_not_exists ttl_ms) buffers = do
  key ← read_buffer (get_elem? buffers 0) missing_key max_kv_key_size key_too_large
  value ← read_buffer (get_elem? buffers 1) missing_value max_kv_value_size value_too_large
  id ← namespace_id conf namespace
  go (ask (worker_data_put id key value if_not_exists ttl_ms))
prepare conf (kv_delete namespace) buffers = do
  key ← read_buffer (get_elem? buffers 0) missing_key max_kv_key_size key_too_large
  id ← namespace_id conf namespace
  go (ask (worker_data_delete id key))
prepare conf (kv_scan namespace limit) buffers = do
  start_key ←
      read_buffer (get_elem? buffers 0) missing_start_key max_kv_key_size start_key_too_large
  end_key ← read_end (get_elem? buffers 1)
  id ← namespace_id conf namespace
  if ltb max_kv_scan_limit limit
      then refused limit_is_greater_than_max
      else go (ask (worker_data_scan_keys id start_key end_key limit))
prepare conf (kv_cmp_update namespace num_assertions num_writes ttl_ms) buffers = do
  id ← namespace_id conf namespace
  pairs ← read_pairs buffers num_assertions ((num_assertions + num_writes) % 2 ^ 32) 0 0
  go (ask (worker_data_cmpupdate id pairs.0 pairs.1 ttl_ms))

pub settle : Step Request → Request
settle (go r) = r
settle (refused e) = refuse e
settle (failed m) = fail m

-- the first half of `handle_task`; the sum of two u32 wraps around, as in a release build
pub request : WorkerConfiguration → AsyncCall → Request
unfolding prepare settle
request conf task = settle (prepare conf task.v task.buffers)
