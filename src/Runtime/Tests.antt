-- ===== src/Runtime/Tests.antt =====
-- Short runs of the parts of the runtime.
use summer21_rusty_workers.Prelude.{
  ◌+◌, ◌-◌, ◌≤◌, ◌≡◌, ◌↔◌, refl, true, false, none, some, [], ◌∷◌, List,
}
use summer21_rusty_workers.Types
use summer21_rusty_workers.Types.{default_response, ExecutionResult}
use summer21_rusty_workers.Runtime.Executor.{Init, Js, Task, sends, marks_done, run, run_task}
use summer21_rusty_workers.Runtime.Executor.Discipline.{Lawful, idle, run-Lawful}
use summer21_rusty_workers.Runtime.Executor.Answers.{Answered, run_task-Answered}
use summer21_rusty_workers.Runtime.IsolatePool
use summer21_rusty_workers.Runtime.IsolatePool.{IsolateThreadPool, goes_on}
use summer21_rusty_workers.Runtime.IsolatePool.Threads
use summer21_rusty_workers.Runtime.IsolatePool.Threads.{
  Balanced, pool-Balanced, pops, acquires, drops_guard, drops_permit,
}
use summer21_rusty_workers.Runtime.Semaphore
use summer21_rusty_workers.Runtime.Semaphore.{acquire_timeout}
use summer21_rusty_workers.Runtime.Semaphore.Permits
use summer21_rusty_workers.Runtime.Semaphore.Permits.{permits-conserved}
use summer21_rusty_workers.Runtime.Monitor.{
  Monitor, monitor, handle, message, deadline_passed, watching, start, reset, control, CanHappen,
}
use summer21_rusty_workers.Runtime.Monitor.Budget.{
  Slice, run_slices, used, run_slices-budget, timed_out_late,
}
use summer21_rusty_workers.Runtime.Termination.{
  Isolate, new_instance, time_limit, cache_policy, do_remote_termination, unknown,
  terminate_for_time_limit, first_reason, drop_handle, recycle, checked, check_on_task,
}
use summer21_rusty_workers.Runtime.Termination.Reasons
use summer21_rusty_workers.Runtime.Termination.Reasons.{
  terminations, seen_error, termination_of_recycled, first_reason_wins, terminates,
}

abbrev done : ExecutionResult (Unit {0})
done = Types.ExecutionResult.ok tt

abbrev quiet : Js
quiet = record { effects = []; protected = true; checked = done }

abbrev answers : Js
answers = record {
  effects = sends default_response ∷ sends default_response ∷ marks_done ∷ [];
  protected = true;
  checked = done;
}

-- The handler waits for I/O once, then answers twice.
abbrev task : Task
task = record {
  token = true;
  event = true;
  js = quiet;
  rounds = record { arrives = true; token = true; fits = true; js = answers } ∷ [];
}

abbrev init : Init
init = record { token = true; compiled = true; checked_before = done; js = quiet }

run-Lawful_example : Lawful idle (run init (task ∷ task ∷ []))
run-Lawful_example = run-Lawful init (task ∷ task ∷ [])

run_task-Answered_example : Answered (run_task task)
run_task-Answered_example = run_task-Answered task

abbrev calls : List Threads.Action
calls = acquires ∷ acquires ∷ pops ∷ drops_guard 0 ∷ pops ∷ drops_permit ∷ []

pool-Balanced_example :
    (r : IsolateThreadPool) × (Threads.acts (IsolatePool.new (1 ∷ 2 ∷ [])) calls ≡ goes_on r)
    × Balanced (1 ∷ 2 ∷ []) r
pool-Balanced_example = pool-Balanced (1 ∷ 2 ∷ []) calls

abbrev uses : List Permits.Action
uses = Permits.acquires ∷ Permits.acquires ∷ Permits.acquires ∷ Permits.drops ∷ []

permits-conserved_example :
    let t = Permits.acts (record { semaphore = Semaphore.new 2; out = 0 }) uses in
    (t.semaphore.free + t.out ≡ 2) × ((acquire_timeout t.semaphore ≡ none) ↔ (t.out ≡ 2))
permits-conserved_example = permits-conserved 2 uses

abbrev slices : List Slice
slices = record { begin = 3; duration = 4 } ∷ record { begin = 20; duration = 5 } ∷ []

abbrev watched : Monitor
watched = record { initial_budget = 50; budget = 50; deadline = none }

run_slices-budget_example :
    ((run_slices slices watched).budget ≡ 50 - used slices)
    × ((control 40 start (run_slices slices watched)).deadline ≡ some (40 + (50 - used slices)))
    × ((control 40 reset (run_slices slices watched)).budget ≡ 50)
run_slices-budget_example = run_slices-budget slices watched 40

timed_out_late_example :
    (CanHappen (deadline_passed 90) (control 40 start (run_slices slices watched))
      → 40 + 50 ≤ 90 + used slices)
    × ¬ CanHappen (deadline_passed 90) (run_slices slices watched)
timed_out_late_example = timed_out_late slices watched 40 90 refl

-- monitor and handle
starts_watching :
    handle (message 10 start) (monitor 50)
    ≡ watching (record { initial_budget = 50; budget = 50; deadline = some 60 })
unfolding handle monitor control
starts_watching = refl

abbrev isolate : Isolate
isolate = record { generation = 3; terminating = false; termination_reason = none }

termination_of_recycled_example :
    let (h, started) = new_instance isolate in
    let later =
      Reasons.acts
        (recycle (Reasons.acts started (terminates h time_limit ∷ [])))
        (Reasons.creates ∷ []) in
    do_remote_termination h cache_policy later ≡ later
unfolding new_instance
termination_of_recycled_example =
    termination_of_recycled isolate
      (terminates (record { creation_generation = 3 }) time_limit ∷ []) (Reasons.creates ∷ [])
      cache_policy

first_reason_wins_example :
    let (h, started) = new_instance isolate in
    let ended = terminations h (time_limit ∷ cache_policy ∷ []) started in
    (ended.terminating ≡ true)
    × (check_on_task (some (b'x' ∷ [])) true ended
        ≡ checked (Types.ExecutionResult.err (seen_error time_limit)))
first_reason_wins_example =
    first_reason_wins isolate time_limit (cache_policy ∷ []) (b'x' ∷ []) (λ h. cc)

-- terminate_for_time_limit and drop_handle
dropped_after_time_limit :
    drop_handle
      (record { creation_generation = 3 })
      (terminate_for_time_limit
        (record { creation_generation = 3 })
        (record isolate { termination_reason = some unknown }))
    ≡ record isolate { terminating = true; termination_reason = some time_limit }
unfolding drop_handle terminate_for_time_limit do_remote_termination first_reason
dropped_after_time_limit = refl
