-- ===== src/Proxy/State.antt =====
-- The state of the scheduler in rusty-workers-proxy/src/sched.rs, and config.rs. A time is a number
-- of nanoseconds. A connection to a runtime (`RuntimeServiceClient`) is known by a number.
use summer21_rusty_workers.Prelude.{ℕ, ◌*◌, ◌-◌, Bool, List, not, ltb}
use summer21_rusty_workers.Bytes.{Bytes}
use summer21_rusty_workers.Types.{WorkerConfiguration, WorkerHandle}

pub record LocalConfig : Type 0 where
  pub runtime_cluster : List Bytes
  pub max_ready_instances_per_app : ℕ
  pub ready_instance_expiration_ms : ℕ
  pub request_timeout_ms : ℕ
  pub max_request_body_size_bytes : ℕ
  pub route_cache_size : ℕ
  pub app_cache_size : ℕ

pub record RtState : Type 0 where
  pub client : ℕ
  pub load : ℕ

pub record ReadyInstance : Type 0 where
  pub rtid : Bytes
  pub last_active : ℕ
  pub handle : WorkerHandle
  pub client : ℕ

pub record AppState : Type 0 where
  pub id : Bytes
  pub config : WorkerConfiguration
  pub bundle_id : Bytes
  pub bundle : Bytes
  pub ready_instances : List ReadyInstance
  pub start_time : ℕ

pub data SchedError : Type 0 where
  no_available_instance no_route_mapping request_body_too_large request_failed_after_retries :
      SchedError

-- `anyhow::Error`: a `SchedError`, or an error of another kind.
pub data ProxyError : Type 0 where
  sched : SchedError → ProxyError
  internal : ProxyError

-- What a function of the scheduler returns. The code can also panic, in `expect` and by an index.
pub data Outcome {ℓ} (A : Type ℓ) : Type ℓ where
  ok : A → Outcome A
  err : ProxyError → Outcome A
  panic : Outcome A

-- Duration::from_millis
abbrev pub from_millis : ℕ → ℕ
from_millis n = n * 1000000

-- ReadyInstance::is_usable, with the reading of the clock
unfoldable pub is_usable : LocalConfig → ℕ → ReadyInstance → Bool
is_usable c current inst =
    not (ltb (from_millis c.ready_instance_expiration_ms) (current - inst.last_active))

-- ReadyInstance::update_last_active, with the reading of the clock
unfoldable pub update_last_active : ℕ → ReadyInstance → ReadyInstance
update_last_active now inst = record inst { last_active = now }
