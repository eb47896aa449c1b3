-- ===== src/Runtime/Io/Processor/Tests.antt =====
-- Calls with a limit of one.
use summer21_rusty_workers.Prelude.{◌+◌, ◌≤◌, refl, some, List, [], ◌∷◌}
use summer21_rusty_workers.Prelude.Pick.{pick}
use summer21_rusty_workers.Runtime.Io.Processor.{
  IoProcessor, new, Event, issues, takes, gets_permit, finishes, step, steps,
}
use summer21_rusty_workers.Runtime.Io.Processor.Conserved.{Conserved, steps-Conserved}
use summer21_rusty_workers.Runtime.Io.Processor.Drained.{left, steps-left}

abbrev issues_three : List Event
issues_three = issues 0 ∷ issues 1 ∷ issues 2 ∷ takes ∷ gets_permit ∷ takes ∷ []

-- One call is in flight, the next waits for its permit, the third is in the channel.
abbrev waiting : IoProcessor
waiting = record new { task = 2 ∷ []; taken = some 1; in_flight = 0 ∷ [] }

abbrev answers_three : List Event
answers_three = finishes 0 ∷ gets_permit ∷ takes ∷ finishes 0 ∷ gets_permit ∷ finishes 0 ∷ []

abbrev answered : IoProcessor
answered = record new { results = 0 ∷ 1 ∷ 2 ∷ [] }

steps-Conserved_example : Conserved 1 (0 ∷ 1 ∷ 2 ∷ []) waiting
unfolding steps step pick
steps-Conserved_example = steps-Conserved 1 issues_three waiting refl

steps-left_example : 6 + left answered ≤ left waiting
unfolding steps step pick
steps-left_example = steps-left 1 answers_three waiting answered refl refl
