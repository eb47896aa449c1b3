-- ===== src/Proxy/Dispatch/Ownership.antt =====
-- What becomes of the instance that a request was sent to.
use summer21_rusty_workers.Prelude.{
  append-nil, ◌≡◌, ◌≤◌, ◌++◌, [], refl, sym, Bool, true, false, Option, none, some, List,
  if◌then◌else◌, length,
}
use summer21_rusty_workers.BtreeMap
use summer21_rusty_workers.Types
use summer21_rusty_workers.Types.{
  RequestObject, ResponseObject, ExecutionResult, ExecutionError, terminates_worker, no_such_worker,
  runtime_throws_exception, time_limit_exceeded, memory_limit_exceeded, io_timeout,
  script_throws_exception,
}
use summer21_rusty_workers.Proxy.State.{LocalConfig, ReadyInstance}
use summer21_rusty_workers.Proxy.Ready.{pool_instance-Placed, Placed}
use summer21_rusty_workers.Proxy.Response.{Http}
use summer21_rusty_workers.Proxy.Dispatch.{pool_instance, Shared, Attempt, judge, pool_back}

-- Whether the worker still runs after the reply: of the errors that a runtime reports, only an
-- exception of the script leaves it running.
abbrev pub survives : Option (ExecutionResult ResponseObject) → Bool
survives none = false
survives (some (Types.ExecutionResult.ok res)) = true
survives (some (Types.ExecutionResult.err no_such_worker)) = false
survives (some (Types.ExecutionResult.err runtime_throws_exception)) = false
survives (some (Types.ExecutionResult.err time_limit_exceeded)) = false
survives (some (Types.ExecutionResult.err memory_limit_exceeded)) = false
survives (some (Types.ExecutionResult.err io_timeout)) = false
survives (some (Types.ExecutionResult.err (script_throws_exception m))) = true

-- What a round does to the queue and what it sends to termination, by whether the worker still runs
-- and whether the instance is to stay.
abbrev pub Owned :
    Bool
    → Bool
    → ReadyInstance
    → List ReadyInstance
    → List ReadyInstance
    → List ReadyInstance
    → Type 0
Owned false stays inst ready kept sent = (sent ≡ []) × (kept ≡ ready)
Owned true stays inst ready kept sent = Placed stays inst ready kept sent

abbrev pub unreachable : Option (ExecutionResult ResponseObject) → Bool
unreachable none = true
unreachable (some r) = false

-- What a round does to the queue of instances, the terminate queue and the clients.
pub record Settled (c : LocalConfig) (a : Attempt) (inst : ReadyInstance)
    (reply : Option (ExecutionResult ResponseObject)) (s t : Shared) : Type 0 where
  sent : List ReadyInstance
  to_terminate : t.terminated ≡ s.terminated ++ sent
  owned : Owned (survives reply) a.stays inst s.ready t.ready sent
  within_limit : survives reply ≡ true → length t.ready ≤ c.max_ready_instances_per_app
  forgotten :
      t.clients ≡ (if unreachable reply then BtreeMap.remove inst.rtid s.clients else s.clients)

module _ (http : Http) (c : LocalConfig) (a : Attempt) (inst : ReadyInstance) (s : Shared) where
  untouched :
      (reply : Option (ExecutionResult ResponseObject))
      → survives reply ≡ false
      → unreachable reply ≡ false
      → Settled c a inst reply s s
  untouched reply dead there = record {
    sent = [];
    to_terminate = sym (append-nil s.terminated);
    owned = rw dead (refl, refl);
    within_limit = λ h. cc;
    forgotten = rw there;
  }

  pooled :
      (reply : Option (ExecutionResult ResponseObject))
      → survives reply ≡ true
      → unreachable reply ≡ false
      → Settled c a inst reply s (pool_back c a inst s)
  unfolding pool_back
  pooled reply alive there =
      let (placed, limit) = pool_instance-Placed c a.clock a.stays inst s.ready in
      record {
        sent = (pool_instance c a.clock a.stays inst s.ready).1;
        to_terminate = refl;
        owned = rw alive placed;
        within_limit = λ _. limit;
        forgotten = rw there;
      }

  -- If the worker still runs, which is so after a response and after an exception of the script, its
  -- instance goes to the end of the queue and only instances at the front go to termination, in
  -- order; or, when it is to drop out, it is the first that goes to termination, followed by
  -- instances at the front of the queue. The queue is then within its limit. If the worker does not
  -- run, the queue stays as it is and nothing goes to termination. The runtime is forgotten exactly
  -- after a network error.
  pub judge-Settled :
      (reply : Option (ExecutionResult ResponseObject))
      → Settled c a inst reply s (judge http c a inst reply s).1
  unfolding judge terminates_worker
  judge-Settled none = record {
    sent = [];
    to_terminate = sym (append-nil s.terminated);
    owned = (refl, refl);
    within_limit = λ h. cc;
    forgotten = refl;
  }
  judge-Settled (some (Types.ExecutionResult.ok res)) = pooled _ refl refl
  judge-Settled (some (Types.ExecutionResult.err no_such_worker)) = untouched _ refl refl
  judge-Settled (some (Types.ExecutionResult.err runtime_throws_exception)) = untouched _ refl refl
  judge-Settled (some (Types.ExecutionResult.err time_limit_exceeded)) = untouched _ refl refl
  judge-Settled (some (Types.ExecutionResult.err memory_limit_exceeded)) = untouched _ refl refl
  judge-Settled (some (Types.ExecutionResult.err io_timeout)) = untouched _ refl refl
  judge-Settled (some (Types.ExecutionResult.err (script_throws_exception m))) = pooled _ refl refl
