-- ===== src/Proxy/Dispatch.antt =====
-- The retry loop of `handle_request` in rusty-workers-proxy/src/sched.rs: up to three instances are
-- tried. What other tasks do to the shared state while a request waits is a parameter.
pub mod Retries
pub mod Ownership
use summer21_rusty_workers.Prelude.{
  ℕ, zero, suc, Bool, true, false, Option, none, some, List, ◌++◌, if◌then◌else◌,
}
use summer21_rusty_workers.BtreeMap
use summer21_rusty_workers.BtreeMap.{BtreeMap}
use summer21_rusty_workers.Types
use summer21_rusty_workers.Types.{
  RequestObject, ResponseObject, ExecutionResult, no_such_worker, terminates_worker,
}
use summer21_rusty_workers.Proxy.State.{
  LocalConfig, RtState, ReadyInstance, AppState, Outcome, ok, err, panic, sched,
  request_failed_after_retries,
}
use summer21_rusty_workers.Proxy.Ready.{pool_instance}
use summer21_rusty_workers.Proxy.Instance.{Surroundings, get_instance}
use summer21_rusty_workers.Proxy.Response.{Http, Response, respond}

-- What the requests of one app share; `terminated` is what went to the terminate queue, in order.
pub record Shared : Type 0 where
  pub ready : List ReadyInstance
  pub clients : BtreeMap RtState
  pub terminated : List ReadyInstance

-- What one round of the loop meets: its call of `get_instance`, what others do while the fetch is
-- awaited, the reply (`none` is a network error), the outcome of the dropout and the clock after it.
pub record Attempt : Type 0 where
  pub surroundings : Surroundings
  pub waiting : Shared → Shared
  pub fetch : ReadyInstance → RequestObject → Option (ExecutionResult ResponseObject)
  pub stays : Bool
  pub clock : ℕ → ℕ

-- How a round ends.
pub data Verdict (R : Type 0) : Type 0 where
  returned : Outcome R → Verdict R
  continued : Verdict R
  broken_off : Verdict R

pool_back : LocalConfig → Attempt → ReadyInstance → Shared → Shared
pool_back c a inst s =
    let (kept, sent) = pool_instance c a.clock a.stays inst s.ready in
    record s { ready = kept; terminated = s.terminated ++ sent }

module _ (http : Http) (c : LocalConfig) where
  -- from the reply to the end of the round
  pub judge :
      Attempt
      → ReadyInstance
      → Option (ExecutionResult ResponseObject)
      → Shared
      → Verdict (Response http) × Shared
  unfolding pool_back
  judge a inst none s = (continued, record s { clients = BtreeMap.remove inst.rtid s.clients })
  judge a inst (some (Types.ExecutionResult.err no_such_worker)) s = (continued, s)
  judge a inst (some (Types.ExecutionResult.err e)) s =
      (broken_off, (if terminates_worker e then s else pool_back c a inst s))
  judge a inst (some (Types.ExecutionResult.ok res)) s =
      (returned (respond http res), pool_back c a inst s)

module _ (http : Http) (c : LocalConfig) (app : AppState) (req : RequestObject) where
  got : Attempt → Outcome ReadyInstance → Shared → Verdict (Response http) × Shared
  unfolding judge
  got a (ok inst) s = judge http c a inst (a.fetch inst req) (a.waiting s)
  got a (err e) s = (returned (err e), s)
  got a panic s = (returned panic, s)

  -- one round of the loop
  pub attempt : Attempt → Shared → Verdict (Response http) × Shared
  unfolding got
  attempt a s =
      let (result, ready, sent) =
        get_instance c a.surroundings (record app { ready_instances = s.ready }) s.clients in
      got a result (record s { ready = ready; terminated = s.terminated ++ sent })

  conclude :
      Verdict (Response http)
      → Shared
      → Outcome (Response http) × Shared
      → Outcome (Response http) × Shared
  conclude (returned r) s rest = (r, s)
  conclude continued s rest = rest
  conclude broken_off s rest = (err (sched request_failed_after_retries), s)

  -- the rounds from number i on; n are left
  pub rounds : (ℕ → Attempt) → ℕ → ℕ → Shared → Outcome (Response http) × Shared
  unfolding conclude
  rounds attempts zero i s = (err (sched request_failed_after_retries), s)
  rounds attempts (suc n) i s =
      let (v, s') = attempt (attempts i) s in
      let rest = rounds attempts n (suc i) s' in conclude v s' rest

  -- `for _ in 0..3usize`
  pub dispatch : (ℕ → Attempt) → Shared → Outcome (Response http) × Shared
  unfolding rounds
  dispatch attempts s = rounds attempts 3 0 s
