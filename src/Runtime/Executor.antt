-- ===== src/Runtime/Executor.antt =====
-- `Instance::run` of rusty-workers-runtime/src/executor.rs: the life of a worker instance, with its
-- execution token, its timer and the response to each request. What V8, the I/O service and the
-- semaphore answer is the argument, in the order in which the code asks.
pub mod Discipline
pub mod Answers
use summer21_rusty_workers.Prelude.{
  Bool, true, false, Option, none, some, List, [], ◌∷◌, ◌++◌, if◌then◌else◌,
}
use summer21_rusty_workers.Types
use summer21_rusty_workers.Types.{
  ResponseObject, default_response, ExecutionError, ExecutionResult, GenericError, execution, other,
  memory_limit_exceeded, io_timeout, terminates_worker,
}

-- What the instance does that others see, in order. `waits` is a blocking call, for a task or for I/O.
pub data Signal : Type 0 where
  takes_token drops_token : Signal
  starts_timer stops_timer resets_timer : Signal
  waits : Signal
  runs_js : Signal

-- What a script does to the state of its request: SyncCall::SendFetchResponse and SyncCall::Done.
pub data Effect : Type 0 where
  sends : ResponseObject → Effect
  marks_done : Effect

-- A call of `protected_js` and the `check_on_task` behind it.
pub record Js : Type 0 where
  pub effects : List Effect
  pub protected : Bool
  pub checked : ExecutionResult (Unit {0})

-- A round of the inner loop: whether the I/O result comes, whether the token is got in time, whether
-- the data fits the memory pool, and the call of the callback.
pub record Round : Type 0 where
  pub arrives : Bool
  pub token : Bool
  pub fits : Bool
  pub js : Js

-- A task: the token, whether the event and its handler can be built, the call of the handler and the
-- rounds after it.
pub record Task : Type 0 where
  pub token : Bool
  pub event : Bool
  pub js : Js
  pub rounds : List Round

-- The start: the token, whether the environment is set up and the script compiled, the check before
-- the script runs, and its run.
pub record Init : Type 0 where
  pub token : Bool
  pub compiled : Bool
  pub checked_before : ExecutionResult (Unit {0})
  pub js : Js

-- The state of a request: whether `fetch_response_channel` holds the sender, what was sent, and `done`.
pub record Request : Type 0 where
  pub pending : Bool
  pub sent : List (ExecutionResult ResponseObject)
  pub done : Bool

-- How a part of `run` ends; `blocked` if the answers end while the instance waits.
pub data Ended : Type 0 where
  finished : Ended
  failed : GenericError → Ended
  blocked : Ended

-- try_send_fetch_response
unfoldable pub try_send_fetch_response : ExecutionResult ResponseObject → Request → Request
try_send_fetch_response res r =
    if r.pending then record r { pending = false; sent = r.sent ++ res ∷ [] } else r

affect : List Effect → Request → Request
affect [] r = r
affect (sends res ∷ es) r = affect es (try_send_fetch_response (Types.ExecutionResult.ok res) r)
affect (marks_done ∷ es) r = affect es (record r { done = true })

abbrev pub Run : Type 0
Run = Ended × Request × List Signal

signal : List Signal → Run → Run
signal l (e, r, rest) = (e, r, l ++ rest)

abbrev memory_error : GenericError
memory_error = execution memory_limit_exceeded

-- `protected_js(…)?` and what follows
call_js : Js → Request → (Request → Run) → Run
unfolding affect signal
call_js js r next =
    let r' = affect js.effects r in
    signal (runs_js ∷ []) (if js.protected then next r' else (failed memory_error, r', []))

-- the inner loop from the answer of `wait` on
resume : Round → Request → (Request → Run) → Run
resume x r next =
    let resumed =
      signal (takes_token ∷ starts_timer ∷ [])
        (if x.fits then call_js x.js r next else (failed memory_error, r, [])) in
    if x.arrives then (if x.token then resumed else (failed (other []), r, [])) else (
      failed (execution io_timeout),
      try_send_fetch_response (Types.ExecutionResult.err io_timeout) r,
      [],
    )

-- the answer of `check_on_task` that is an error
exception : ExecutionError → Request → Run
exception e r = (
  (if terminates_worker e then failed (execution e) else finished),
  try_send_fetch_response (Types.ExecutionResult.err e) r,
  [],
)

abbrev yields : List Signal
yields = stops_timer ∷ drops_token ∷ waits ∷ []

-- `// Drive to completion.`
drive : ExecutionResult (Unit {0}) → List Round → Request → Run
drive (Types.ExecutionResult.err e) rounds r = exception e r
drive (Types.ExecutionResult.ok _) [] r = if r.done then (finished, r, []) else (blocked, r, yields)
drive (Types.ExecutionResult.ok _) (x ∷ rounds) r =
    let rest = signal yields (resume x r (λ r'. drive x.js.checked rounds r')) in
    if r.done then (finished, r, []) else rest

-- Script marked itself as done but we haven't got any response.
complete : Run → Run
complete (finished, r, l) = (
  finished,
  try_send_fetch_response (Types.ExecutionResult.ok (record default_response { status = 500 })) r,
  l,
)
complete (failed e, r, l) = (failed e, r, l)
complete (blocked, r, l) = (blocked, r, l)

abbrev pub populated : Request
populated = record { pending = true; sent = []; done = false }

-- one task, from the answer of `blocking_recv` on
pub run_task : Task → Run
unfolding drive complete
run_task t =
    let started = signal (starts_timer ∷ []) (
      if t.event
      then complete (call_js t.js populated (λ r. drive t.js.checked t.rounds r))
      else (failed (other []), populated, [])) in
    if t.token
    then signal (takes_token ∷ []) started
    else (failed (other []), record populated { pending = false }, [])

-- the head of the loop
abbrev rests : List Signal
rests = stops_timer ∷ resets_timer ∷ drops_token ∷ waits ∷ []

abbrev pub Life : Type 0
Life = Ended × List Signal

signals : List Signal → Life → Life
signals l (e, rest) = (e, l ++ rest)

-- After a task that failed, or that waits for ever, nothing follows.
carry_on : Run → Life → Life
unfolding signals
carry_on (finished, r, l) rest = signals l rest
carry_on (failed e, r, l) rest = (failed e, l)
carry_on (blocked, r, l) rest = (blocked, l)

-- the loop over the tasks; it ends when the channel is closed
pub serve : List Task → Life
unfolding run_task carry_on
serve [] = (finished, rests)
serve (t ∷ tasks) = let rest = serve tasks in signals rests (carry_on (run_task t) rest)

-- `check_on_init()?`
check_on_init : ExecutionResult (Unit {0}) → Life → Life
check_on_init (Types.ExecutionResult.ok _) rest = rest
check_on_init (Types.ExecutionResult.err e) rest = (failed (execution e), [])

-- the run of the script and what follows
run_script : Js → List Task → Life
unfolding serve check_on_init
run_script js tasks =
    let rest = check_on_init js.checked (serve tasks) in
    signals (runs_js ∷ []) (if js.protected then rest else (failed memory_error, []))

-- Instance::run
pub run : Init → List Task → Life
unfolding run_script
run i tasks =
    let script = signals (starts_timer ∷ []) (run_script i.js tasks) in
    let checked = check_on_init i.checked_before script in
    if i.token
    then signals (takes_token ∷ []) (if i.compiled then checked else (failed (other []), []))
    else (failed (other []), [])
