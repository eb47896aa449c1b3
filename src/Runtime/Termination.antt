-- ===== src/Runtime/Termination.antt =====
-- The termination of an instance from another thread: `do_remote_termination`, `terminate_for_time_limit`
-- and `drop` of `InstanceHandle` in rusty-workers-runtime/src/executor.rs, the generations of an isolate
-- in isolate.rs, and `check_on_task` of engine.rs.
pub mod Reasons
use summer21_rusty_workers.Prelude.{
  ℕ, suc, ◌+◌, Bool, true, false, Option, none, some, ◌==◌, if◌then◌else◌,
}
use summer21_rusty_workers.Bytes.{Bytes}
use summer21_rusty_workers.Types
use summer21_rusty_workers.Types.{
  ExecutionError, runtime_throws_exception, time_limit_exceeded, script_throws_exception,
  ExecutionResult,
}

pub data TerminationReason : Type 0 where
  unknown time_limit cache_policy : TerminationReason

-- An isolate: its generation, whether V8 was told to terminate execution, and the reason box in its
-- slot, which it shares with the handle of the instance that it runs.
pub record Isolate : Type 0 where
  pub generation : ℕ
  pub terminating : Bool
  pub termination_reason : Option TerminationReason

pub record InstanceHandle : Type 0 where
  pub creation_generation : ℕ

-- the part of `Instance::new` that sets the slot and makes the handle
unfoldable pub new_instance : Isolate → InstanceHandle × Isolate
new_instance iso = (
  record { creation_generation = iso.generation },
  record iso { termination_reason = some unknown },
)

-- Only the first termination reason is applied.
unfoldable pub first_reason :
    Option TerminationReason → TerminationReason → Option TerminationReason
first_reason (some unknown) reason = some reason
first_reason (some time_limit) reason = some time_limit
first_reason (some cache_policy) reason = some cache_policy
first_reason none reason = none

unfoldable pub do_remote_termination : InstanceHandle → TerminationReason → Isolate → Isolate
unfolding first_reason
do_remote_termination h reason iso =
    if iso.generation == h.creation_generation
    then record iso {
      terminating = true;
      termination_reason = first_reason iso.termination_reason reason;
    }
    else iso

unfoldable pub terminate_for_time_limit : InstanceHandle → Isolate → Isolate
unfolding do_remote_termination
terminate_for_time_limit h = do_remote_termination h time_limit

-- Drop for InstanceHandle
unfoldable pub drop_handle : InstanceHandle → Isolate → Isolate
unfolding do_remote_termination
drop_handle h = do_remote_termination h cache_policy

-- the end of a round of `isolate_worker`: the generation advances, a pending termination is cancelled
-- and `cleanup` empties the slot
pub recycle : Isolate → Isolate
recycle iso = record {
  generation = iso.generation + 1;
  terminating = false;
  termination_reason = none;
}

reason_error : TerminationReason → ExecutionError
reason_error unknown = runtime_throws_exception
reason_error time_limit = time_limit_exceeded
reason_error cache_policy = runtime_throws_exception

-- The outcome of `check_on_task`; the reason is read by `unwrap`, which can panic.
pub data Checked : Type 0 where
  checked : ExecutionResult (Unit {0}) → Checked
  panicked : Checked

terminated_error : Option TerminationReason → Checked
unfolding reason_error
terminated_error none = panicked
terminated_error (some r) = checked (Types.ExecutionResult.err (reason_error r))

-- check_on_task: the description of the pending exception and `has_terminated` are V8's
pub check_on_task : Option Bytes → Bool → Isolate → Checked
unfolding terminated_error
check_on_task none has_terminated iso = checked (Types.ExecutionResult.ok tt)
check_on_task (some x) has_terminated iso =
    if has_terminated
    then terminated_error iso.termination_reason
    else checked (Types.ExecutionResult.err (script_throws_exception x))
