-- ===== src/Runtime/Io/Waiter/Budget.antt =====
-- The budget of I/O calls, and the callback that a result goes to.
use summer21_rusty_workers.Prelude.{
  ℕ, ◌+◌, ◌≡◌, ◌≤◌, refl, Bool, true, false, Option, none, some, List, [], ◌∷◌, arith, ◌==◌,
  if◌then◌else◌,
}
use summer21_rusty_workers.Types
use summer21_rusty_workers.Types.{GenericResult, io_limit_exceeded, other}
use summer21_rusty_workers.Runtime.Io.Waiter.{
  IoWaiter, new, spend, submit, issue, remove, deliver, finish,
}

-- A call of `issue`, or the delivery of a result.
pub data Action : Type 0 where
  issues : Bool → ℕ → ℕ → Bool → Action
  finishes : ℕ → Action

-- Whether a call counts and is not refused for the budget.
spends : Bool → IoWaiter → ℕ
spends false w = 0
spends true w = if w.remaining_budget == 0 then 0 else 1

waiter_of : IoWaiter → Option (ℕ × IoWaiter) → IoWaiter
waiter_of w none = w
waiter_of w (some (cb, w')) = w'

pub act : Action → IoWaiter → IoWaiter
unfolding waiter_of
act (issues count_budget index cb sent) w = (issue count_budget index cb sent w).1
act (finishes index) w = waiter_of w (finish index w)

spent_by : Action → IoWaiter → ℕ
unfolding spends
spent_by (issues count_budget index cb sent) w = spends count_budget w
spent_by (finishes index) w = 0

pub acts : List Action → IoWaiter → IoWaiter
unfolding act
acts [] w = w
acts (a ∷ l) w = acts l (act a w)

-- The counted calls that were not refused for the budget.
pub spent : List Action → IoWaiter → ℕ
unfolding spent_by
spent [] w = 0
spent (a ∷ l) w = spent_by a w + spent l (act a w)

submit-budget :
    (count_budget : Bool) (index cb : ℕ) (sent : Bool) (w : IoWaiter)
    → (submit index cb sent (spend count_budget w) w).1.remaining_budget + spends count_budget w
      ≡ w.remaining_budget
unfolding submit spend spends
submit-budget false index cb false w = omega arith
submit-budget false index cb true w = omega arith
submit-budget true index cb false w = ground arith
submit-budget true index cb true w = ground arith

finish-budget :
    (w : IoWaiter) (o : Option (ℕ × List (ℕ × ℕ)))
    → (waiter_of w (deliver w o)).remaining_budget ≡ w.remaining_budget
unfolding waiter_of deliver
finish-budget w none = refl
finish-budget w (some (cb, others)) = refl

act-budget :
    (a : Action) (w : IoWaiter) → (act a w).remaining_budget + spent_by a w ≡ w.remaining_budget
unfolding act spent_by issue finish
act-budget (issues count_budget index cb sent) w = submit-budget count_budget index cb sent w
act-budget (finishes index) w = omega (arith, finish-budget w (remove index w.inflight))

acts-budget :
    (l : List Action) (w : IoWaiter) → (acts l w).remaining_budget + spent l w ≡ w.remaining_budget
unfolding acts spent
acts-budget [] w = omega arith
acts-budget (a ∷ l) w = omega (arith, act-budget a w, acts-budget l (act a w))

-- Of the calls that count, no more than the limit of a request are let through, and what is left of
-- the budget is the rest.
acts-spent :
    (max_io_per_request : ℕ) (l : List Action)
    → ((acts l (new max_io_per_request)).remaining_budget + spent l (new max_io_per_request)
        ≡ max_io_per_request)
      × (spent l (new max_io_per_request) ≤ max_io_per_request)
unfolding new
acts-spent n l =
    let w : IoWaiter = record { remaining_budget = n; inflight = [] } in
    (acts-budget l w, omega (arith, acts-budget l w))

-- A call that does not count is never refused for the budget, also when that is used up, and leaves it
-- as it is; and its result goes to its callback.
issue_uncounted :
    (index cb : ℕ) (w : IoWaiter)
    → ((issue false index cb true w).0 ≡ Types.GenericResult.ok tt)
      × ((issue false index cb true w).1.remaining_budget ≡ w.remaining_budget)
      × (finish index (issue false index cb true w).1 ≡ some (cb, w))
unfolding issue spend submit finish remove deliver
issue_uncounted index cb w = (refl, refl, ground arith)
