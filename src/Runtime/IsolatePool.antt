-- ===== src/Runtime/IsolatePool.antt =====
-- `IsolateThreadPool` of rusty-workers-runtime/src/isolate.rs: a stack of idle isolate threads, and a
-- semaphore with a permit for each. The steps of concurrent calls of `run`, one function each.
pub mod Threads
use summer21_rusty_workers.Prelude.{ℕ, zero, suc, ◌+◌, Option, none, some, List, [], ◌∷◌, length}
use summer21_rusty_workers.Prelude.Pick.{pick}

-- A thread is known by its number. Besides the semaphore and the stack: how many calls have a permit
-- and no thread yet, which threads run jobs, and how many calls have given the thread back and
-- still hold the permit.
pub record IsolateThreadPool : Type 0 where
  pub permits : ℕ
  pub threads : List ℕ
  pub permitted : ℕ
  pub working : List ℕ
  pub returned : ℕ

-- IsolateThreadPool::new
pub new : List ℕ → IsolateThreadPool
new threads = record {
  permits = length threads;
  threads = threads;
  permitted = 0;
  working = [];
  returned = 0;
}

-- What a step of a call does: it waits, it goes on, or the thread panics.
pub data Progress : Type 0 where
  waits : Progress
  goes_on : IsolateThreadPool → Progress
  panics : Progress

take_permit : IsolateThreadPool → ℕ → Progress
take_permit p zero = waits
take_permit p (suc n) = goes_on (record p { permits = n; permitted = suc p.permitted })

-- `self.notifier.acquire().await`
pub acquire : IsolateThreadPool → Progress
unfolding take_permit
acquire p = take_permit p p.permits

pop_thread : IsolateThreadPool → ℕ → List ℕ → Progress
pop_thread p zero threads = waits
pop_thread p (suc n) [] = panics
pop_thread p (suc n) (t ∷ threads) =
    goes_on (record p { threads = threads; permitted = n; working = t ∷ p.working })

-- `pop().expect(…)`, for a call that has a permit
pub pop : IsolateThreadPool → Progress
unfolding pop_thread
pop p = pop_thread p p.permitted p.threads

push_thread : IsolateThreadPool → Option (ℕ × List ℕ) → Progress
push_thread p none = waits
push_thread p (some (t, others)) =
    goes_on (record p { threads = t ∷ p.threads; working = others; returned = suc p.returned })

-- Drop for ThreadGuard, when the job of worker number i ends or its call is cancelled
pub drop_guard : ℕ → IsolateThreadPool → Progress
unfolding push_thread
drop_guard i p = push_thread p (pick i p.working)

give_permit : IsolateThreadPool → ℕ → Progress
give_permit p zero = waits
give_permit p (suc n) = goes_on (record p { permits = suc p.permits; returned = n })

-- the drop of `_permit`, which comes after that of the guard
pub drop_permit : IsolateThreadPool → Progress
unfolding give_permit
drop_permit p = give_permit p p.returned
