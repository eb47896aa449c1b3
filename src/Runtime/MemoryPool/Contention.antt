-- ===== src/Runtime/MemoryPool/Contention.antt =====
-- Several threads in the loop of `acquire_bytes` at once: each load and each `compare_exchange` is one
-- step, in any order.
use summer21_rusty_workers.Prelude.{
  le_or_lt, inl, inr, ◌⊎◌, false, none, some, ℕ, ◌+◌, ◌-◌, ◌≤◌, ◌<◌, ◌^◌, ◌≡◌, Bool, true, arith,
  ◌==◌, if◌then◌else◌,
}
use summer21_rusty_workers.Runtime.MemoryPool.{
  MemoryPool, Acquiring, looping, loaded, returned, load_round, exchange_round, release_bytes,
  take_bytes,
}

-- The pool, the bytes that are held, and where the threads stand that ask for bytes.
pub record System : Type 0 where
  pub pool : MemoryPool
  pub held : ℕ
  pub wants : ℕ → ℕ
  pub stands : ℕ → Acquiring

abbrev pub update : (ℕ → Acquiring) → ℕ → Acquiring → ℕ → Acquiring
update f t v u = if u == t then v else f u

-- The bytes that a step adds to what is held.
abbrev pub gained : ℕ → Acquiring → ℕ
gained n (returned true) = n
gained n _ = 0

abbrev pub exchanged : System → ℕ → Acquiring × MemoryPool → System
exchanged s t r = record s {
  pool = r.1;
  held = s.held + gained (s.wants t) r.0;
  stands = update s.stands t r.0;
}

pub data Step : System → System → Type 0 where
  load :
      (s : System) (t : ℕ)
      → s.stands t ≡ looping
      → Step s (record s { stands = update s.stands t (load_round (s.wants t) s.pool) })
  exchange :
      (s : System) (t current : ℕ)
      → s.stands t ≡ loaded current
      → Step s (exchanged s t (exchange_round (s.wants t) current s.pool))
  release :
      (s : System) (n : ℕ)
      → n ≤ s.held
      → Step s (record s { pool = release_bytes n s.pool; held = s.held - n })
  again :
      (s : System) (t n : ℕ) (b : Bool)
      → s.stands t ≡ returned b
      → Step s (record s {
        wants = (λ u. if u == t then n else s.wants u);
        stands = update s.stands t looping;
      })

pub data Reach (s : System) : System → Type 0 where
  here : Reach s s
  next : {t u : System} → Reach s t → Step t u → Reach s u

-- What is left and what is held make up the budget, and a thread between load and exchange has seen
-- enough for what it wants.
pub record Balanced (budget : ℕ) (s : System) : Type 0 where
  pub total : s.pool.remaining_bytes + s.held ≡ budget
  pub seen : (t current : ℕ) → s.stands t ≡ loaded current → s.wants t ≤ current

Step-Balanced :
    {budget : ℕ} {s s' : System}
    → budget < 2 ^ 64
    → Step s s'
    → Balanced budget s
    → Balanced budget s'
unfolding load_round exchange_round release_bytes
Step-Balanced fits (load s t e) b = record {
  total = b.total;
  seen = λ u c h. ground (arith, b.seen u c);
}
Step-Balanced fits (exchange s t current e) b = record {
  total = ground (arith, b.total, b.seen t current e);
  seen = λ u c h. ground (arith, b.seen u c);
}
Step-Balanced fits (release s n le) b = record { total = omega (arith, b.total); seen = b.seen }
Step-Balanced fits (again s t n r e) b = record {
  total = b.total;
  seen = λ u c h. ground (arith, b.seen u c);
}

-- However the threads interleave, they never hold more than the budget: what is left and what is held
-- make it up, and no load was acted on that was too small.
pub Reach-Balanced :
    {budget : ℕ} {s s' : System}
    → budget < 2 ^ 64
    → Balanced budget s
    → Reach s s'
    → Balanced budget s'
Reach-Balanced fits b here = b
Reach-Balanced fits b (next r st) = Step-Balanced fits st (Reach-Balanced fits b r)

-- A thread that is alone needs one round of the loop: it is refused exactly where `take_bytes` refuses,
-- and otherwise its exchange succeeds and leaves the pool that `take_bytes` leaves.
acquire_alone :
    (n : ℕ) (pool : MemoryPool)
    → ((load_round n pool ≡ returned false) × (take_bytes n pool ≡ none))
      ⊎ ((current : ℕ) × (left : MemoryPool) × (load_round n pool ≡ loaded current)
          × (exchange_round n current pool ≡ (returned true, left))
          × (take_bytes n pool ≡ some left))
unfolding load_round exchange_round take_bytes
acquire_alone n pool = elim (le_or_lt n pool.remaining_bytes) [
  | inl fits ↦ inr (
    pool.remaining_bytes,
    record { remaining_bytes = pool.remaining_bytes - n },
    ground arith,
    ground arith,
    ground arith,
  )
  | inr over ↦ inl (ground arith, ground arith)
]
