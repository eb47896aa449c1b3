-- ===== src/Runtime/Io/Processor/Kill.antt =====
-- A dropped `IoScope` while the loop waits for a permit.
use summer21_rusty_workers.Prelude.{ℕ, ◌≤◌, ◌≡◌, Bool, true, false, none, some, length, arith}
use summer21_rusty_workers.Runtime.Io.Processor.{
  IoProcessor, Event, issues, drops_scope, drops_waiter, takes, sees_kill, sees_close, gets_permit,
  finishes, cancels, issue, take, see_kill, see_close, get_permit, finish, cancel, step,
}
use summer21_rusty_workers.Runtime.Io.Processor.Drained.{is_internal}

-- The loop or a task does something, but no call gets its result.
abbrev pub is_progress : Event → Bool
is_progress (finishes j) = false
is_progress e = is_internal e

-- While a call waits for its permit and `max_io_concurrency` calls are in flight, nothing of the processor
-- happens but that a call in flight gets its result. This holds whether or not the scope was dropped.
step-waits :
    (limit : ℕ) (p : IoProcessor) (i : ℕ) (e : Event)
    → p.taken ≡ some i
    → p.stopped ≡ false
    → limit ≤ length p.in_flight
    → is_progress e ≡ true
    → step limit e p ≡ none
unfolding step issue take see_kill see_close get_permit finish cancel
step-waits limit p i takes t s full h = ground arith
step-waits limit p i sees_kill t s full h = ground arith
step-waits limit p i sees_close t s full h = ground arith
step-waits limit p i gets_permit t s full h = ground arith
step-waits limit p i (cancels j) t s full h = ground arith
step-waits limit p i (finishes j) t s full h = absurd cc
step-waits limit p i (issues j) t s full h = absurd cc
step-waits limit p i drops_scope t s full h = absurd cc
step-waits limit p i drops_waiter t s full h = absurd cc
