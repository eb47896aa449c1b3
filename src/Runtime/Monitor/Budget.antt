-- ===== src/Runtime/Monitor/Budget.antt =====
-- The budget over the slices of CPU time of a request.
use summer21_rusty_workers.Prelude.{
  subst, ◌≤◌, none, ℕ, ◌+◌, ◌-◌, ◌≡◌, refl, some, List, [], ◌∷◌, arith,
}
use summer21_rusty_workers.Runtime.Monitor.{
  Due, deadline_passed, CanHappen, Monitor, start, stop, reset, control,
}

-- A slice of time on the CPU: from a start to a stop.
pub record Slice : Type 0 where
  pub begin : ℕ
  pub duration : ℕ

pub run_slice : Slice → Monitor → Monitor
run_slice s m = control (s.begin + s.duration) stop (control s.begin start m)

pub run_slices : List Slice → Monitor → Monitor
unfolding run_slice
run_slices [] m = m
run_slices (s ∷ ss) m = run_slices ss (run_slice s m)

abbrev pub used : List Slice → ℕ
used [] = 0
used (s ∷ ss) = s.duration + used ss

run_slice-budget : (s : Slice) (m : Monitor) → (run_slice s m).budget ≡ m.budget - s.duration
unfolding run_slice control
run_slice-budget s m = ground arith

run_slice-initial : (s : Slice) (m : Monitor) → (run_slice s m).initial_budget ≡ m.initial_budget
unfolding run_slice control
run_slice-initial s m = refl

-- What is left after any slices is the budget less the time used, and nothing if more was used; the
-- worker's next deadline is that much time away, and a reset gives the whole budget back.
pub run_slices-budget :
    (ss : List Slice) (m : Monitor) (now : ℕ)
    → ((run_slices ss m).budget ≡ m.budget - used ss)
      × ((control now start (run_slices ss m)).deadline ≡ some (now + (m.budget - used ss)))
      × ((control now reset (run_slices ss m)).budget ≡ m.initial_budget)
unfolding run_slices control
run_slices-budget [] m now = (omega arith, ground arith, refl)
run_slices-budget (s ∷ ss) m now =
    ground
      (arith, run_slices-budget ss (run_slice s m) now, run_slice-budget s m, run_slice-initial s m)

run_slices-deadline :
    (ss : List Slice) (m : Monitor) → m.deadline ≡ none → (run_slices ss m).deadline ≡ none
unfolding run_slices
run_slices-deadline [] m off = off
run_slices-deadline (s ∷ ss) m off =
    run_slices-deadline ss (run_slice s m) (unfold control run_slice in refl)

-- A worker is timed out only when it has used up its budget: the slices before, and the time since the
-- last start; and not at all while its timer is stopped.
pub timed_out_late :
    (ss : List Slice) (m : Monitor) (now later : ℕ)
    → m.deadline ≡ none
    → (CanHappen (deadline_passed later) (control now start (run_slices ss m))
        → now + m.budget ≤ later + used ss)
      × ¬ CanHappen (deadline_passed later) (run_slices ss m)
timed_out_late ss m now later off = (
  λ due. omega (arith, subst (Due later) (run_slices-budget ss m now).1 due),
  λ due. subst (Due later) (run_slices-deadline ss m off) due,
)
