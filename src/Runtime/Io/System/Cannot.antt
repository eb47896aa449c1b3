-- ===== src/Runtime/Io/System/Cannot.antt =====
-- What follows where an event of an instance and its processor cannot happen.
use summer21_rusty_workers.Prelude.{
  ◌==◌, ℕ, ◌≤◌, ◌<◌, ◌≡◌, ◌≢◌, refl, ap, subst, inl, inr, Bool, true, false, Option, none, some,
  List, [], ◌∷◌, arith, Bool-cases, ltb, length, ◌⊎◌, if◌then◌else◌,
}
use summer21_rusty_workers.Prelude.Pick.{count, pick}
use summer21_rusty_workers.Runtime.Io.Waiter
use summer21_rusty_workers.Runtime.Io.Waiter.{IoWaiter}
use summer21_rusty_workers.Runtime.Io.Processor
use summer21_rusty_workers.Runtime.Io.Processor.{IoProcessor}
use summer21_rusty_workers.Runtime.Io.Processor.Drained.{finish-possible}
use summer21_rusty_workers.Prelude.{arith, Bool-cases}
use summer21_rusty_workers.Runtime.Io.System.{
  System, works, cannot, keys, has_room, withdraw, unblock, after_wait, see_end, receive, serve,
  after_work, is_asking, may_work, step,
}

pub serve-rest :
    (s : System) (b : Option ℕ) (closed : Bool) (c : List ℕ)
    → b ≡ none
    → closed ≡ false
    → serve true s b closed c ≡ cannot
    → c ≡ []
unfolding serve
serve-rest s none false [] e f h = refl
serve-rest s none false (x ∷ c) e f h = absurd cc
serve-rest s none true c e f h = absurd cc
serve-rest s (some i) closed c e f h = absurd cc

after_wait-goes :
    (index : ℕ) (rest : List ℕ) (s : System) (o : Option (ℕ × IoWaiter))
    → after_wait index rest s o ≢ cannot
unfolding after_wait
after_wait-goes index rest s none h = absurd cc
after_wait-goes index rest s (some (cb, w)) h = absurd cc

see_end-rest :
    (s : System) (c l : List ℕ) (stopped : Bool)
    → c ≡ []
    → l ≡ []
    → see_end s c l stopped ≡ cannot
    → stopped ≡ false
unfolding see_end
see_end-rest s [] [] true e f h = absurd cc
see_end-rest s [] [] false e f h = refl
see_end-rest s [] (x ∷ l) stopped e f h = absurd cc
see_end-rest s (x ∷ c) l stopped e f h = absurd cc

pub receive-rest :
    (s : System) (b : Option ℕ) (closed : Bool) (r : List ℕ)
    → b ≡ none
    → closed ≡ false
    → s.creations ≡ []
    → s.processor.in_flight ≡ []
    → receive s b closed r ≡ cannot
    → (r ≡ []) × ((s.ended ≡ true) ⊎ (s.processor.stopped ≡ false))
unfolding receive
receive-rest s none false (x ∷ r) e f c l h =
    let unasked : (count x s.creations == 0) ≡ true = ground (arith, ap (count x) c) in
    absurd (
      after_wait-goes x r s _ (
        subst (λ k. (if k then after_wait x r s (Waiter.finish x s.waiter) else cannot) ≡ cannot)
          unasked h))
receive-rest s none false [] e f c l h = elim (Bool-cases s.ended) [
  | inl y ↦ (refl, inl y)
  | inr n ↦ (
    refl,
    inr (
        see_end-rest s s.creations s.processor.in_flight s.processor.stopped c l (
          subst
            (λ x.
              (if x
                then cannot
                else see_end s s.creations s.processor.in_flight s.processor.stopped)
              ≡ cannot)
            n h)),
  )
]
receive-rest s none true r e f c l h = absurd cc
receive-rest s (some i) closed r e f c l h = absurd cc

withdraw-goes : (s : System) (o : Option IoWaiter) → withdraw s o ≢ cannot
unfolding withdraw
withdraw-goes s none h = absurd cc
withdraw-goes s (some w) h = absurd cc

pub unblock-rest :
    (s : System) (b : Option ℕ) (stopped : Bool) (index : ℕ)
    → b ≡ some index
    → unblock s b stopped ≡ cannot
    → (stopped ≡ false) × (s.capacity ≤ length s.processor.task)
unfolding unblock has_room
unblock-rest s none stopped index e h = absurd cc
unblock-rest s (some i) true index e h = absurd (withdraw-goes s _ h)
unblock-rest s (some i) false index e h =
    elim (Bool-cases (ltb (length s.processor.task) s.capacity)) [
      | inl y ↦ absurd (ground arith)
      | inr n ↦ (refl, ground arith)
    ]

after_work-rest : (s : System) (o : Option IoProcessor) → after_work s o ≡ cannot → o ≡ none
unfolding after_work
after_work-rest s none h = refl
after_work-rest s (some p) h = absurd cc

pub work-rest :
    (limit : ℕ) (s : System) (e : Processor.Event)
    → may_work e s ≡ true
    → step limit (works e) s ≡ cannot
    → Processor.step limit e s.processor ≡ none
unfolding step
work-rest limit s e may h = after_work-rest s _ (
    subst (λ b. (if b then after_work s (Processor.step limit e s.processor) else cannot) ≡ cannot)
      may h)

pub not_asking : (s : System) (o : Option (ℕ × List ℕ)) → s.creations ≡ [] → is_asking s o ≡ false
unfolding is_asking
not_asking s none e = refl
not_asking s (some (i, others)) e = ground (arith, ap (count i) e)

pub empty_slab : (l : List (ℕ × ℕ)) → ((i : ℕ) → count i (keys l) ≡ 0) → l ≡ []
empty_slab [] h = refl
empty_slab ((i, cb) ∷ l) h = absurd (ground (arith, h i))

-- A task that cannot end waits for a buffer.
pub finish-rest :
    (limit : ℕ) (s : System) (j k : ℕ) (others : List ℕ)
    → pick j s.processor.in_flight ≡ some (k, others)
    → step limit (works (Processor.finishes j)) s ≡ cannot
    → 0 < count k s.creations
unfolding may_work is_asking
finish-rest limit s j k others e h = elim (Bool-cases (is_asking s (some (k, others)))) [
  | inr n ↦ absurd (
      finish-possible limit s.processor j k others e
        (work-rest limit s (Processor.finishes j) (rw (e, n) refl) h))
  | inl y ↦ ground arith
]
