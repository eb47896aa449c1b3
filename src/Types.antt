-- ===== src/Types.antt =====
-- rusty-workers/src/types.rs: the data that the proxy, the runtimes and the fetch service exchange.
use summer21_rusty_workers.Prelude.{ℕ, Bool, true, false, List, []}
use summer21_rusty_workers.Bytes.{Bytes}
use summer21_rusty_workers.BtreeMap.{BtreeMap}

pub record ExecutorConfiguration : Type 0 where
  pub max_ab_memory_mb : ℕ
  pub max_time_ms : ℕ
  pub max_io_concurrency : ℕ
  pub max_io_per_request : ℕ

-- A socket address is a text here: the code only passes it on.
pub record WorkerConfiguration : Type 0 where
  pub executor : ExecutorConfiguration
  pub fetch_service : Bytes
  pub env : BtreeMap Bytes
  pub kv_namespaces : BtreeMap Bytes

pub record WorkerHandle : Type 0 where
  pub id : Bytes

pub data HttpBody : Type 0 where
  binary : Bytes → HttpBody

pub record RequestObject : Type 0 where
  pub headers : BtreeMap (List Bytes)
  pub method : Bytes
  pub url : Bytes
  pub body : HttpBody

pub record ResponseObject : Type 0 where
  pub headers : BtreeMap (List Bytes)
  pub status : ℕ
  pub body : HttpBody

-- ResponseObject::default
abbrev pub default_response : ResponseObject
default_response = record { headers = []; status = 0; body = binary [] }

pub data ExecutionError : Type 0 where
  no_such_worker : ExecutionError
  runtime_throws_exception : ExecutionError
  time_limit_exceeded : ExecutionError
  memory_limit_exceeded : ExecutionError
  io_timeout : ExecutionError
  script_throws_exception : Bytes → ExecutionError

pub data ExecutionResult {ℓ} (A : Type ℓ) : Type ℓ where
  ok : A → ExecutionResult A
  err : ExecutionError → ExecutionResult A

-- ExecutionError::terminates_worker
unfoldable pub terminates_worker : ExecutionError → Bool
terminates_worker no_such_worker = true
terminates_worker runtime_throws_exception = true
terminates_worker time_limit_exceeded = true
terminates_worker memory_limit_exceeded = true
terminates_worker io_timeout = true
terminates_worker (script_throws_exception _) = false

pub data GenericError : Type 0 where
  io : Bytes → GenericError
  database : Bytes → GenericError
  executor : Bytes → GenericError
  v8_unknown : GenericError
  execution : ExecutionError → GenericError
  script_init_exception : Bytes → GenericError
  io_limit_exceeded : GenericError
  try_again : GenericError
  conversion : GenericError
  typeck : Bytes → GenericError
  other : Bytes → GenericError

pub data GenericResult {ℓ} (A : Type ℓ) : Type ℓ where
  ok : A → GenericResult A
  err : GenericError → GenericResult A
