-- ===== src/Runtime/IsolatePool/Threads.antt =====
-- A call that has a permit always finds a thread, and no thread runs two jobs.
use summer21_rusty_workers.Prelude.{
  ℕ, zero, suc, ◌+◌, ◌≡◌, inl, inr, refl, ap, List, [], ◌∷◌, length, arith, Option-cases,
}
use summer21_rusty_workers.Prelude.Pick.{pick, count, pick-length, pick-count}
use summer21_rusty_workers.Runtime.IsolatePool.{
  IsolateThreadPool, Progress, waits, goes_on, panics, new, acquire, take_permit, pop, pop_thread,
  drop_guard, push_thread, drop_permit, give_permit,
}

pub data Action : Type 0 where
  acquires pops drops_permit : Action
  drops_guard : ℕ → Action

pub act : IsolateThreadPool → Action → Progress
act p acquires = acquire p
act p pops = pop p
act p (drops_guard i) = drop_guard i p
act p drops_permit = drop_permit p

-- A call that has to wait leaves the pool as it is; a panic ends the run.
pub continue : Progress → IsolateThreadPool → (IsolateThreadPool → Progress) → Progress
continue waits p rest = rest p
continue (goes_on q) p rest = rest q
continue panics p rest = panics

pub acts : IsolateThreadPool → List Action → Progress
unfolding act continue
acts p [] = goes_on p
acts p (a ∷ rest) = continue (act p a) p (λ q. acts q rest)

-- How the calls and the threads add up, for a pool made of the given threads.
pub record Balanced (made : List ℕ) (p : IsolateThreadPool) : Type 0 where
  permits : p.permits + p.permitted + length p.working + p.returned ≡ length made
  threads : length p.threads + length p.working ≡ length made
  each : (t : ℕ) → count t p.threads + count t p.working ≡ count t made

abbrev Goes : List ℕ → Progress → Type 0
Goes made waits = Unit
Goes made (goes_on p) = Balanced made p
Goes made panics = ⊥

module _ (made : List ℕ) (p : IsolateThreadPool) (b : Balanced made p) where
  acquire-Goes : (n : ℕ) → p.permits ≡ n → Goes made (take_permit p n)
  unfolding take_permit
  acquire-Goes zero e = tt
  acquire-Goes (suc n) e = record {
    permits = omega (arith, b.permits);
    threads = b.threads;
    each = b.each;
  }

  pop-Goes : (n : ℕ) (l : List ℕ) → p.permitted ≡ n → p.threads ≡ l → Goes made (pop_thread p n l)
  unfolding pop_thread
  pop-Goes zero l e f = tt
  pop-Goes (suc n) [] e f = omega (arith, b.permits, b.threads, ap length f)
  pop-Goes (suc n) (t ∷ l) e f = record {
    permits = omega (arith, b.permits);
    threads = omega (arith, b.threads, ap length f);
    each = λ u. omega (arith, b.each u, ap (count u) f);
  }

  guard-Goes : (i : ℕ) → Goes made (push_thread p (pick i p.working))
  unfolding push_thread
  guard-Goes i = elim (Option-cases (pick i p.working)) [
    | inl e ↦ rw e tt
    | inr ((t, others), e) ↦ rw e (record {
      permits = omega (arith, b.permits, pick-length i p.working t others e);
      threads = omega (arith, b.threads, pick-length i p.working t others e);
      each = λ u. omega (arith, b.each u, pick-count i p.working t others u e);
    })
  ]

  permit-Goes : (n : ℕ) → p.returned ≡ n → Goes made (give_permit p n)
  unfolding give_permit
  permit-Goes zero e = tt
  permit-Goes (suc n) e = record {
    permits = omega (arith, b.permits);
    threads = b.threads;
    each = b.each;
  }

  act-Goes : (a : Action) → Goes made (act p a)
  unfolding act acquire pop drop_guard drop_permit
  act-Goes acquires = acquire-Goes p.permits refl
  act-Goes pops = pop-Goes p.permitted p.threads refl refl
  act-Goes (drops_guard i) = guard-Goes i
  act-Goes drops_permit = permit-Goes p.returned refl

continue-Goes :
    (made : List ℕ) (p : IsolateThreadPool) (rest : List Action)
    → ((q : IsolateThreadPool)
        → Balanced made q
        → (r : IsolateThreadPool) × (acts q rest ≡ goes_on r) × Balanced made r)
    → Balanced made p
    → (g : Progress) → Goes made g
    → (r : IsolateThreadPool) × (continue g p (λ q. acts q rest) ≡ goes_on r) × Balanced made r
unfolding continue
continue-Goes made p rest k b waits h = k p b
continue-Goes made p rest k b (goes_on q) h = k q h
continue-Goes made p rest k b panics h = absurd h

acts-Balanced :
    (made : List ℕ) (l : List Action) (p : IsolateThreadPool)
    → Balanced made p
    → (r : IsolateThreadPool) × (acts p l ≡ goes_on r) × Balanced made r
unfolding acts
acts-Balanced made [] p b = (p, refl, b)
acts-Balanced made (a ∷ l) p b =
    continue-Goes made p l (acts-Balanced made l) b (act p a) (act-Goes made p b a)

-- However the calls interleave, none panics for want of a thread; each thread is idle or runs one job,
-- as often as the pool was made with it; and the permits and the calls that hold one make up the pool.
pub pool-Balanced :
    (made : List ℕ) (l : List Action)
    → (r : IsolateThreadPool) × (acts (new made) l ≡ goes_on r) × Balanced made r
unfolding new
pool-Balanced made l =
    acts-Balanced made l _
      (record { permits = omega arith; threads = omega arith; each = λ t. omega arith })
