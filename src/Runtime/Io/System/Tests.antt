-- ===== src/Runtime/Io/System/Tests.antt =====
-- Two calls of an instance, of which the second is answered first, after its task got a buffer; and a
-- call whose send fails because the scope was dropped.
use summer21_rusty_workers.Prelude.{
  ℕ, zero, suc, Option, none, some, length, ◌≡◌, ◌≢◌, refl, false, true, ◌∷◌, [], List, arith,
}
use summer21_rusty_workers.Prelude.Pick.{pick}
use summer21_rusty_workers.Runtime.Io.Waiter
use summer21_rusty_workers.Runtime.Io.Processor
use summer21_rusty_workers.Runtime.Io.System.{
  System, new, Event, issues, unblocks, waits, serves, drops_scope, drops_waiter, works, asks,
  Progress, panics, goes_on, steps, step,
}
use summer21_rusty_workers.Runtime.Io.System.Slab.{Tracked}
use summer21_rusty_workers.Runtime.Io.System.Tracked.{steps-Tracked}
use summer21_rusty_workers.Runtime.Io.System.Rest.{Rests, Rested, steps-Rested}

abbrev two_calls : List Event
two_calls =
    issues false 0 10
    ∷ issues true 1 11
    ∷ works Processor.takes
    ∷ works Processor.gets_permit
    ∷ works Processor.takes
    ∷ works Processor.gets_permit
    ∷ asks 0
    ∷ serves true
    ∷ works (Processor.finishes 0)
    ∷ waits
    ∷ works (Processor.finishes 0)
    ∷ waits
    ∷ []

abbrev answered : System
answered = record (new 5) { waiter = record { remaining_budget = 4; inflight = [] } }

two_calls-answered : steps 2 two_calls (new 5) ≡ goes_on answered
unfolding steps step pick Processor.step Waiter.new Waiter.issue Waiter.finish
two_calls-answered = refl

abbrev issue_from : ℕ → ℕ → List Event
issue_from zero index = []
issue_from (suc n) index = issues false index index ∷ issue_from n (suc index)

-- One call is in flight and asks for a buffer, the next waits for its permit, 200 fill the channel, and
-- one more waits for room.
abbrev deadlock : List Event
deadlock =
    issues false 0 0
    ∷ works Processor.takes
    ∷ works Processor.gets_permit
    ∷ asks 0
    ∷ issues false 1 1
    ∷ works Processor.takes
    ∷ issue_from 201 2

-- The blocked index, the call that waits for its permit, the wishes, and the length of the channel.
abbrev seen : Progress → Option ℕ × Option ℕ × List ℕ × ℕ
seen (goes_on s) = (s.blocked, s.processor.taken, s.creations, length s.processor.task)
seen p = (none, none, [], 0)

deadlock-blocks : seen (steps 1 deadlock (new 0)) ≡ (some 202, some 1, 0 ∷ [], 200)
unfolding steps step pick Processor.step Waiter.new Waiter.issue
deadlock-blocks = refl

abbrev late_call : List Event
late_call = drops_scope ∷ works Processor.sees_kill ∷ issues false 0 10 ∷ waits ∷ []

steps-Tracked_example :
    (steps 2 late_call (new 5) ≢ panics)
    × ((s : System) → steps 2 late_call (new 5) ≡ goes_on s → Tracked s)
steps-Tracked_example = steps-Tracked 2 5 late_call

answered-Rests : Rests 2 answered
unfolding step pick Processor.step
answered-Rests unblocks h = refl
answered-Rests waits h = refl
answered-Rests (serves granted) h = refl
answered-Rests (works Processor.takes) h = refl
answered-Rests (works Processor.sees_kill) h = refl
answered-Rests (works Processor.sees_close) h = refl
answered-Rests (works Processor.gets_permit) h = refl
answered-Rests (works (Processor.finishes j)) h = refl
answered-Rests (works (Processor.cancels j)) h = refl
answered-Rests (works (Processor.issues i)) h = absurd cc
answered-Rests (works Processor.drops_scope) h = absurd cc
answered-Rests (works Processor.drops_waiter) h = absurd cc
answered-Rests (issues count_budget index cb) h = absurd cc
answered-Rests drops_scope h = absurd cc
answered-Rests drops_waiter h = absurd cc
answered-Rests (asks j) h = absurd cc

steps-Rested_example : Rested 2 answered
steps-Rested_example =
    steps-Rested 2 5 two_calls answered (omega arith) two_calls-answered refl answered-Rests
