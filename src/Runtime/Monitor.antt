-- ===== src/Runtime/Monitor.antt =====
-- `monitor_task` and `wait_until` of rusty-workers-runtime/src/runtime.rs: the CPU time budget of a
-- worker. Times and durations are numbers of one unit.
pub mod Budget
use summer21_rusty_workers.Prelude.{
  ℕ, ◌+◌, ◌-◌, ◌≤◌, Bool, true, false, Option, none, some, List, [], ◌∷◌, ltb, if◌then◌else◌,
}

pub data TimerControl : Type 0 where
  start stop reset : TimerControl

pub record Monitor : Type 0 where
  pub initial_budget : ℕ
  pub budget : ℕ
  pub deadline : Option ℕ

-- the `let`s at the head of `monitor_task`
unfoldable pub monitor : ℕ → Monitor
monitor budget = record { initial_budget = budget; budget = budget; deadline = none }

unused : ℕ → ℕ → Option ℕ → ℕ
unused now budget none = budget
unused now budget (some deadline) = if ltb deadline now then 0 else deadline - now

-- The arm of `select!` for a message, with the reading of the clock.
unfoldable pub control : ℕ → TimerControl → Monitor → Monitor
unfolding unused
control now start m = record m { deadline = some (now + m.budget) }
control now stop m = record m { budget = unused now m.budget m.deadline; deadline = none }
control now reset m = record m { budget = m.initial_budget }

-- What `select!` can choose: a message, the end of the channel, or the deadline.
pub data Event : Type 0 where
  message : ℕ → TimerControl → Event
  closed : Event
  deadline_passed : ℕ → Event

-- How the task goes on. Both ends remove the worker; the time limit also terminates it, if it was
-- still there.
pub data Progress : Type 0 where
  watching : Monitor → Progress
  worker_stopped : Progress
  worker_timed_out : Progress

unfoldable pub handle : Event → Monitor → Progress
unfolding control
handle (message now op) m = watching (control now op m)
handle closed m = worker_stopped
handle (deadline_passed now) m = worker_timed_out

abbrev pub Due : ℕ → Option ℕ → Type 0
Due now none = ⊥
Due now (some d) = d ≤ now

-- `wait_until` is ready at the deadline or later, and never without one.
abbrev pub CanHappen : Event → Monitor → Type 0
CanHappen (message now op) m = Unit
CanHappen closed m = Unit
CanHappen (deadline_passed now) m = Due now m.deadline
