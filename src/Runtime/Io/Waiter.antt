-- ===== src/Runtime/Io/Waiter.antt =====
-- `IoWaiter` of rusty-workers-runtime/src/io.rs: the callbacks of the calls in flight, and the budget
-- of calls of a request. The slab gives an index that is not in use; it is an argument. A callback is
-- known by a number.
pub mod Budget
use summer21_rusty_workers.Prelude.{
  ℕ, zero, suc, ◌-◌, Bool, true, false, Option, none, some, List, [], ◌∷◌, ◌==◌, if◌then◌else◌,
}
use summer21_rusty_workers.Types
use summer21_rusty_workers.Types.{GenericResult, io_limit_exceeded, other}

pub record IoWaiter : Type 0 where
  pub remaining_budget : ℕ
  pub inflight : List (ℕ × ℕ)

-- IoWaiter::new, with `max_io_per_request`
unfoldable pub new : ℕ → IoWaiter
new max_io_per_request = record { remaining_budget = max_io_per_request; inflight = [] }

-- `if count_budget`
unfoldable pub spend : Bool → IoWaiter → Option IoWaiter
spend false w = some w
spend true w =
    if w.remaining_budget == 0
    then none
    else some (record w { remaining_budget = w.remaining_budget - 1 })

-- Slab::remove
unfoldable pub remove : ℕ → List (ℕ × ℕ) → Option (ℕ × List (ℕ × ℕ))
remove index [] = none
remove index ((i, cb) ∷ l) =
    let rest = remove index l in
    if i == index
    then some (cb, l)
    else elim rest [ none ↦ none | some (found, others) ↦ some (found, (i, cb) ∷ others) ]

-- After the insertion `blocking_send` succeeds, or fails because the I/O processor is gone.
unfoldable pub submit :
    ℕ → ℕ → Bool → Option IoWaiter → IoWaiter → GenericResult (Unit {0}) × IoWaiter
submit index cb sent none w = (Types.GenericResult.err io_limit_exceeded, w)
submit index cb true (some w') w =
    (Types.GenericResult.ok tt, record w' { inflight = (index, cb) ∷ w'.inflight })
submit index cb false (some w') w = (Types.GenericResult.err (other []), w')

unfoldable pub withdrawn : IoWaiter → Option (ℕ × List (ℕ × ℕ)) → Option IoWaiter
withdrawn w none = none
withdrawn w (some (cb, others)) = some (record w { inflight = others })

-- The removal where `blocking_send` had to wait and then failed; `none` is a panic of the slab.
unfoldable pub withdraw : ℕ → IoWaiter → Option IoWaiter
unfolding remove withdrawn
withdraw index w = withdrawn w (remove index w.inflight)

-- IoWaiter::issue
unfoldable pub issue : Bool → ℕ → ℕ → Bool → IoWaiter → GenericResult (Unit {0}) × IoWaiter
unfolding spend submit
issue count_budget index cb sent w = submit index cb sent (spend count_budget w) w

unfoldable pub deliver : IoWaiter → Option (ℕ × List (ℕ × ℕ)) → Option (ℕ × IoWaiter)
deliver w none = none
deliver w (some (cb, others)) = some (cb, record w { inflight = others })

-- the end of IoWaiter::wait, for the index of a result; `none` is a panic of the slab
unfoldable pub finish : ℕ → IoWaiter → Option (ℕ × IoWaiter)
unfolding remove deliver
finish index w = deliver w (remove index w.inflight)
