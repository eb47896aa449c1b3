-- ===== src/Proxy/Ready.antt =====
-- The queue of ready instances of an app: `gc_ready_instances` and `pool_instance`
-- of rusty-workers-proxy/src/sched.rs. Front first. What a method sends to `terminate_queue` is its
-- second result, in order; the send may fail when that queue is full, and the code ignores this.
use summer21_rusty_workers.Prelude.{
  ◌∙◌, ℕ, suc, ◌+◌, ◌-◌, ◌≤◌, ◌≡◌, inl, inr, refl, ap, subst, Bool, true, false, List, [], ◌∷◌,
  ◌++◌, append_assoc, arith, length, length-append, ltb, if◌then◌else◌, Bool-cases,
}
use native.Mathlib.Nat.{add-zero}
use summer21_rusty_workers.Proxy.State.{LocalConfig, ReadyInstance, is_usable}

-- The first `while` loop: the oldest instances go until the limit is met.
pub shrink : ℕ → List ReadyInstance → List ReadyInstance × List ReadyInstance
shrink limit [] = ([], [])
shrink limit (x ∷ ready) =
    let (kept, sent) = shrink limit ready in
    if ltb limit (length (x ∷ ready)) then (kept, x ∷ sent) else (x ∷ ready, [])

-- The second `while` loop: it reads the clock for each instance that it looks at.
pub expire :
    LocalConfig → (ℕ → ℕ) → ℕ → List ReadyInstance → List ReadyInstance × List ReadyInstance
expire c clock i [] = ([], [])
expire c clock i (x ∷ ready) =
    let (kept, sent) = expire c clock (suc i) ready in
    if is_usable c (clock i) x then (x ∷ ready, []) else (kept, x ∷ sent)

-- AppState::gc_ready_instances
pub gc_ready_instances :
    LocalConfig → (ℕ → ℕ) → List ReadyInstance → List ReadyInstance × List ReadyInstance
unfolding shrink expire
gc_ready_instances c clock ready =
    let (kept, sent) = shrink c.max_ready_instances_per_app ready in
    let (kept', sent') = expire c clock 0 kept in (kept', sent ++ sent')

-- AppState::pool_instance; `stays` is the outcome of the comparison of a random number with
-- `dropout_rate`
pub pool_instance :
    LocalConfig
    → (ℕ → ℕ)
    → Bool
    → ReadyInstance
    → List ReadyInstance
    → List ReadyInstance × List ReadyInstance
unfolding gc_ready_instances
pool_instance c clock stays inst ready =
    if stays
    then gc_ready_instances c clock (ready ++ inst ∷ [])
    else (let (kept, sent) = gc_ready_instances c clock ready in (kept, inst ∷ sent))

shrink-append :
    (limit : ℕ) (ready : List ReadyInstance)
    → (shrink limit ready).1 ++ (shrink limit ready).0 ≡ ready
unfolding shrink
shrink-append limit [] = refl
shrink-append limit (x ∷ ready) = ground (arith, shrink-append limit ready)

shrink-length : (limit : ℕ) (ready : List ReadyInstance) → length (shrink limit ready).0 ≤ limit
unfolding shrink
shrink-length limit [] = omega arith
shrink-length limit (x ∷ ready) = ground (arith, shrink-length limit ready)

-- Nothing is dropped while the limit is met.
shrink-sent :
    (limit : ℕ) (ready : List ReadyInstance) → length (shrink limit ready).1 ≡ length ready - limit
unfolding shrink
shrink-sent limit [] = omega arith
shrink-sent limit (x ∷ ready) = ground (arith, shrink-sent limit ready)

module _ (c : LocalConfig) (clock : ℕ → ℕ) where
  expire-append :
      (i : ℕ) (ready : List ReadyInstance)
      → (expire c clock i ready).1 ++ (expire c clock i ready).0 ≡ ready
  unfolding expire
  expire-append i [] = refl
  expire-append i (x ∷ ready) = ground (arith, expire-append (suc i) ready)

  -- What stands at the front was usable when the loop looked at it.
  abbrev pub FrontUsable : ℕ → List ReadyInstance → Type 0
  FrontUsable i [] = Unit
  FrontUsable i (x ∷ ready) = is_usable c (clock i) x ≡ true

  -- Each instance was too old when the loop looked at it.
  abbrev pub AllExpired : ℕ → List ReadyInstance → Type 0
  AllExpired i [] = Unit
  AllExpired i (x ∷ sent) = (is_usable c (clock i) x ≡ false) × AllExpired (suc i) sent

  expire-front :
      (i : ℕ) (ready : List ReadyInstance)
      → FrontUsable (i + length (expire c clock i ready).1) (expire c clock i ready).0
  unfolding expire
  expire-front i [] = tt
  expire-front i (x ∷ ready) = elim (Bool-cases (is_usable c (clock i) x)) [
    | inl e ↦ rw e (rw add-zero e)
    | inr e ↦ rw e (
        subst (λ k. FrontUsable k (expire c clock (suc i) ready).0) (omega arith)
          (expire-front (suc i) ready))
  ]

  expire-sent : (i : ℕ) (ready : List ReadyInstance) → AllExpired i (expire c clock i ready).1
  unfolding expire
  expire-sent i [] = tt
  expire-sent i (x ∷ ready) = ground (arith, expire-sent (suc i) ready)

-- What a collection of the queue leaves and sends away: the oldest instances above the limit, then
-- those that were too old when they were looked at. What stands in front is usable.
pub record Collected (c : LocalConfig) (clock : ℕ → ℕ) (ready kept sent : List ReadyInstance)
    : Type 0 where
  pub surplus : List ReadyInstance
  pub expired : List ReadyInstance
  pub split_sent : sent ≡ surplus ++ expired
  pub in_order : sent ++ kept ≡ ready
  pub surplus_size : length surplus ≡ length ready - c.max_ready_instances_per_app
  pub were_expired : AllExpired c clock 0 expired
  pub front_usable : FrontUsable c clock (length expired) kept
  pub within_limit : length kept ≤ c.max_ready_instances_per_app

-- A collection keeps the order, sends away the surplus and then the expired instances at the front,
-- and leaves a queue within the limit whose front is usable.
pub gc_ready_instances-Collected :
    (c : LocalConfig) (clock : ℕ → ℕ) (ready : List ReadyInstance)
    → Collected c clock ready
        (gc_ready_instances c clock ready).0
        (gc_ready_instances c clock ready).1
unfolding gc_ready_instances
gc_ready_instances-Collected c clock ready =
    let first = shrink c.max_ready_instances_per_app ready in
    let second = expire c clock 0 first.0 in
    record {
      surplus = first.1;
      expired = second.1;
      split_sent = refl;
      in_order =
          append_assoc first.1 second.1 second.0
          ∙ ap (λ l. first.1 ++ l) (expire-append c clock 0 first.0)
          ∙ shrink-append c.max_ready_instances_per_app ready;
      surplus_size = shrink-sent c.max_ready_instances_per_app ready;
      were_expired = expire-sent c clock 0 first.0;
      front_usable =
          subst (λ k. FrontUsable c clock k second.0) (omega arith)
            (expire-front c clock 0 first.0);
      within_limit = omega (
        arith,
        shrink-length c.max_ready_instances_per_app ready,
        ap length (expire-append c clock 0 first.0),
        length-append second.1 second.0,
      );
    }

-- Where an instance that comes back is put: at the end of the queue, from whose front instances are
-- sent away; or it is the first that is sent away, before others from the front of the queue.
abbrev pub Placed :
    Bool → ReadyInstance → List ReadyInstance → List ReadyInstance → List ReadyInstance → Type 0
Placed true inst ready kept sent = sent ++ kept ≡ ready ++ inst ∷ []
Placed false inst ready kept sent =
    (rest : List ReadyInstance) × (sent ≡ inst ∷ rest) × (rest ++ kept ≡ ready)

-- An instance that comes back is never lost, and the queue stays within its limit.
pub pool_instance-Placed :
    (c : LocalConfig) (clock : ℕ → ℕ) (stays : Bool) (inst : ReadyInstance)
    (ready : List ReadyInstance)
    → let (kept, sent) = pool_instance c clock stays inst ready in
      Placed stays inst ready kept sent × (length kept ≤ c.max_ready_instances_per_app)
unfolding pool_instance
pool_instance-Placed c clock true inst ready =
    let g = gc_ready_instances-Collected c clock (ready ++ inst ∷ []) in
    (g.in_order, g.within_limit)
pool_instance-Placed c clock false inst ready =
    let g = gc_ready_instances-Collected c clock ready in ((_, refl, g.in_order), g.within_limit)
