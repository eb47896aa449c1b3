-- ===== src/Runtime/Service/Tests.antt =====
-- Two calls of a script: a response, and one that fails for want of a buffer.
use summer21_rusty_workers.Prelude.{false, ◌≡◌, refl, true, Option, none, some, [], ◌∷◌}
use summer21_rusty_workers.Bytes.{Bytes}
use summer21_rusty_workers.Types
use summer21_rusty_workers.Types.{default_response, binary}
use summer21_rusty_workers.Runtime.Executor.{try_send_fetch_response}
use summer21_rusty_workers.Runtime.MemoryPool.{acquire_precheck, take_bytes}
use summer21_rusty_workers.Runtime.Io.Task.{read_to_vec}
use summer21_rusty_workers.Runtime.Service.{
  call_text, enter, serve, perform, call_sync, send_body, decode, few, collect, charge, or_throw,
  then_js, ok, ServiceCall, sync, send_fetch_response, Environment, Arguments, view, State, nothing,
  call_service_callback,
}
use summer21_rusty_workers.Runtime.Service.Handled.{Handled}

abbrev read : Bytes → Option ServiceCall
read [] = none
read (x ∷ rest) = some (sync (send_fetch_response default_response))

abbrev env : Environment
env = record { from_reader = read; random = λ n. []; hash = λ alg x. []; index = 0; is_sent = true }

abbrev sends_text : Arguments
sends_text = record {
  call_str = some (1 ∷ []);
  buffers = some (view (2 ∷ 3 ∷ []) ∷ []);
  callback = none;
}

abbrev state : State
state = record {
  files = [];
  request = record { pending = true; sent = []; done = false };
  logged = [];
  io_waiter = none;
  pool = record { remaining_bytes = 1000 };
}

abbrev after : State
after = record state {
  request = record {
    pending = false;
    sent = Types.ExecutionResult.ok (record default_response { body = binary (2 ∷ 3 ∷ []) }) ∷ [];
    done = false;
  };
  pool = record { remaining_bytes = 999 };
}

responds :
    call_service_callback env sends_text state
    ≡ (ok (record { returned = nothing; buffers = (2 ∷ 3 ∷ []) ∷ [] }), after)
unfolding call_service_callback call_text enter serve perform call_sync send_body read_to_vec decode
    few collect charge take_bytes acquire_precheck try_send_fetch_response or_throw then_js
responds = refl
