-- ===== src/Runtime/Io/Processor.antt =====
-- `IoProcessor::run` of rusty-workers-runtime/src/io.rs: the loop that takes the calls of a request and
-- starts a task for each, with a semaphore, and the tasks. A call is known by its index. Each event
-- is one step, in any order that the code allows. The channel has no capacity here and any task in
-- flight may end, which is more than the code allows: Runtime.Io.System adds the capacity, and the
-- buffers that a task waits for.
pub mod Conserved
pub mod Drained
pub mod Kill
mod Tests
use summer21_rusty_workers.Prelude.{
  ℕ, zero, suc, ◌+◌, Bool, true, false, Option, none, some, List, [], ◌∷◌, ◌++◌, length, ltb,
  if◌then◌else◌,
}
use summer21_rusty_workers.Prelude.Pick.{pick}

-- `taken` is the call that waits for its permit, and `killed` and `closed` say that the `IoScope` and
-- the `IoWaiter` are dropped. When the loop has ended, `_kill_tx` is dropped too.
pub record IoProcessor : Type 0 where
  pub task : List ℕ
  pub taken : Option ℕ
  pub in_flight : List ℕ
  pub results : List ℕ
  pub cancelled : List ℕ
  pub killed : Bool
  pub closed : Bool
  pub stopped : Bool

abbrev pub new : IoProcessor
new = record {
  task = [];
  taken = none;
  in_flight = [];
  results = [];
  cancelled = [];
  killed = false;
  closed = false;
  stopped = false;
}

-- What happens: a call is issued, the scope or the waiter is dropped; the loop takes a call, sees one of
-- the two, or gets a permit; task number j of those in flight ends with a result, or sees the kill.
pub data Event : Type 0 where
  issues : ℕ → Event
  drops_scope drops_waiter : Event
  takes sees_kill sees_close gets_permit : Event
  finishes cancels : ℕ → Event

-- `none`: the event cannot happen.
issue : ℕ → IoProcessor → Bool → Bool → Option IoProcessor
issue i p false false = some (record p { task = p.task ++ i ∷ [] })
issue i p _ _ = none

-- the arm `x = self.next()` of `select!`
take : IoProcessor → Bool → Option ℕ → List ℕ → Option IoProcessor
take p false none (i ∷ task) = some (record p { task = task; taken = some i })
take p _ _ _ = none

-- the arm `_ = &mut scope.kill`
see_kill : IoProcessor → Bool → Option ℕ → Bool → Option IoProcessor
see_kill p false none true = some (record p { stopped = true })
see_kill p _ _ _ = none

-- `None => break`
see_close : IoProcessor → Bool → Option ℕ → List ℕ → Bool → Option IoProcessor
see_close p false none [] true = some (record p { stopped = true })
see_close p _ _ _ _ = none

-- `acquire_owned().await` and the spawn of the task
get_permit : ℕ → IoProcessor → Option ℕ → Option IoProcessor
get_permit limit p none = none
get_permit limit p (some i) =
    if ltb (length p.in_flight) limit
    then some (record p { taken = none; in_flight = i ∷ p.in_flight })
    else none

-- `ret = shared.handle_task(task)` and the response; the permit is dropped with the task
finish : IoProcessor → Option (ℕ × List ℕ) → Option IoProcessor
finish p none = none
finish p (some (i, others)) = some (record p { in_flight = others; results = p.results ++ i ∷ [] })

-- `_ = kill_rx.changed()`, which is ready when the sender is dropped
cancel : IoProcessor → Bool → Option (ℕ × List ℕ) → Option IoProcessor
cancel p true (some (i, others)) =
    some (record p { in_flight = others; cancelled = i ∷ p.cancelled })
cancel p _ _ = none

-- The limit is `max_io_concurrency`.
unfoldable pub step : ℕ → Event → IoProcessor → Option IoProcessor
unfolding issue take see_kill see_close get_permit finish cancel
step limit (issues i) p = issue i p p.stopped p.closed
step limit drops_scope p = some (record p { killed = true })
step limit drops_waiter p = some (record p { closed = true })
step limit takes p = take p p.stopped p.taken p.task
step limit sees_kill p = see_kill p p.stopped p.taken p.killed
step limit sees_close p = see_close p p.stopped p.taken p.task p.closed
step limit gets_permit p = get_permit limit p p.taken
step limit (finishes j) p = finish p (pick j p.in_flight)
step limit (cancels j) p = cancel p p.stopped (pick j p.in_flight)

and_then : Option IoProcessor → (IoProcessor → Option IoProcessor) → Option IoProcessor
and_then none f = none
and_then (some p) f = f p

-- The state after some events, if they can happen in this order.
pub steps : ℕ → List Event → IoProcessor → Option IoProcessor
unfolding and_then
steps limit [] p = some p
steps limit (e ∷ es) p = and_then (step limit e p) (λ q. steps limit es q)
