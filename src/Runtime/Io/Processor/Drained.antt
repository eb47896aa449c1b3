-- ===== src/Runtime/Io/Processor/Drained.antt =====
-- When the loop of the processor and its tasks come to rest.
use summer21_rusty_workers.Prelude.{
  ℕ, suc, ◌+◌, ◌*◌, ◌≤◌, ◌<◌, ◌≡◌, ◌≢◌, ltb, refl, ap, inl, inr, Bool, true, false, Option, none,
  some, List, [], ◌∷◌, length, ltb, arith, Bool-cases, some-inj, ◌&&◌,
}
use summer21_rusty_workers.Prelude.Pick.{pick, pick-length}
use summer21_rusty_workers.Runtime.Io.Processor.{
  IoProcessor, Event, issues, drops_scope, drops_waiter, takes, sees_kill, sees_close, gets_permit,
  finishes, cancels, take, see_kill, see_close, get_permit, finish, cancel, step, and_then, steps,
}

-- What the loop and its tasks do themselves.
abbrev pub is_internal : Event → Bool
is_internal (issues i) = false
is_internal drops_scope = false
is_internal drops_waiter = false
is_internal _ = true

abbrev pub all_internal : List Event → Bool
all_internal [] = true
all_internal (e ∷ es) = is_internal e && all_internal es

abbrev left_taken : Option ℕ → ℕ
left_taken none = 0
left_taken (some i) = 2

abbrev left_loop : Bool → ℕ
left_loop true = 0
left_loop false = 1

-- How many events are left at most.
abbrev pub left : IoProcessor → ℕ
left p = 3 * length p.task + left_taken p.taken + length p.in_flight + left_loop p.stopped

abbrev Lowers : IoProcessor → Option IoProcessor → Type 0
Lowers p none = Unit
Lowers p (some q) = left q < left p

take-Lowers :
    (p : IoProcessor) (s : Bool) (o : Option ℕ) (l : List ℕ)
    → p.taken ≡ o
    → p.task ≡ l
    → Lowers p (take p s o l)
unfolding take
take-Lowers p false none (i ∷ l) e f = omega (arith, ap length f, ap left_taken e)
take-Lowers p false none [] e f = tt
take-Lowers p false (some x) l e f = tt
take-Lowers p true o l e f = tt

see_kill-Lowers :
    (p : IoProcessor) (s : Bool) (o : Option ℕ) (k : Bool)
    → p.stopped ≡ s
    → Lowers p (see_kill p s o k)
unfolding see_kill
see_kill-Lowers p false none true e = omega (arith, ap left_loop e)
see_kill-Lowers p false none false e = tt
see_kill-Lowers p false (some x) k e = tt
see_kill-Lowers p true o k e = tt

see_close-Lowers :
    (p : IoProcessor) (s : Bool) (o : Option ℕ) (l : List ℕ) (c : Bool)
    → p.stopped ≡ s
    → Lowers p (see_close p s o l c)
unfolding see_close
see_close-Lowers p false none [] true e = omega (arith, ap left_loop e)
see_close-Lowers p false none [] false e = tt
see_close-Lowers p false none (i ∷ l) c e = tt
see_close-Lowers p false (some x) l c e = tt
see_close-Lowers p true o l c e = tt

get_permit-Lowers :
    (limit : ℕ) (p : IoProcessor) (o : Option ℕ) → p.taken ≡ o → Lowers p (get_permit limit p o)
unfolding get_permit
get_permit-Lowers limit p none e = tt
get_permit-Lowers limit p (some i) e = elim (Bool-cases (ltb (length p.in_flight) limit)) [
  | inl f ↦ rw f (omega (arith, ap left_taken e))
  | inr f ↦ rw f tt
]

finish-Lowers :
    (j : ℕ) (p : IoProcessor) (o : Option (ℕ × List ℕ))
    → pick j p.in_flight ≡ o
    → Lowers p (finish p o)
unfolding finish
finish-Lowers j p none e = tt
finish-Lowers j p (some (i, others)) e = omega (arith, pick-length j p.in_flight i others e)

cancel-Lowers :
    (j : ℕ) (p : IoProcessor) (s : Bool) (o : Option (ℕ × List ℕ))
    → pick j p.in_flight ≡ o
    → Lowers p (cancel p s o)
unfolding cancel
cancel-Lowers j p true none e = tt
cancel-Lowers j p false o e = tt
cancel-Lowers j p true (some (i, others)) e = omega (arith, pick-length j p.in_flight i others e)

step-Lowers :
    (limit : ℕ) (e : Event) (p : IoProcessor) → is_internal e ≡ true → Lowers p (step limit e p)
unfolding step
step-Lowers limit (issues i) p h = absurd cc
step-Lowers limit drops_scope p h = absurd cc
step-Lowers limit drops_waiter p h = absurd cc
step-Lowers limit takes p h = take-Lowers p p.stopped p.taken p.task refl refl
step-Lowers limit sees_kill p h = see_kill-Lowers p p.stopped p.taken p.killed refl
step-Lowers limit sees_close p h = see_close-Lowers p p.stopped p.taken p.task p.closed refl
step-Lowers limit gets_permit p h = get_permit-Lowers limit p p.taken refl
step-Lowers limit (finishes j) p h = finish-Lowers j p (pick j p.in_flight) refl
step-Lowers limit (cancels j) p h = cancel-Lowers j p p.stopped (pick j p.in_flight) refl

and_then-left :
    (limit : ℕ) (es : List Event) (p r : IoProcessor) (o : Option IoProcessor)
    → Lowers p o
    → ((q : IoProcessor) → steps limit es q ≡ some r → length es + left r ≤ left q)
    → and_then o (λ q. steps limit es q) ≡ some r
    → suc (length es) + left r ≤ left p
unfolding and_then
and_then-left limit es p r none a f h = absurd cc
and_then-left limit es p r (some q) a f h = omega (arith, a, f q h)

-- From any state, the loop and its tasks do at most `left` things while no call is issued and nothing
-- is dropped: three for each call in the channel, two for the one that waits for its permit, one
-- for each in flight and one for the loop.
pub steps-left :
    (limit : ℕ) (es : List Event) (p r : IoProcessor)
    → all_internal es ≡ true
    → steps limit es p ≡ some r
    → length es + left r ≤ left p
unfolding steps
steps-left limit [] p r h e = omega (arith, ap left (some-inj e))
steps-left limit (x ∷ es) p r h e =
    and_then-left limit es p r (step limit x p) (step-Lowers limit x p (ground arith))
      (λ q. steps-left limit es q r (ground arith)) e

-- What follows where an event cannot happen.
module _ (limit : ℕ) (p : IoProcessor) where
  pub rests-in_flight :
      (l : List ℕ) → p.in_flight ≡ l → step limit (finishes 0) p ≡ none → p.in_flight ≡ []
  unfolding step finish pick
  rests-in_flight [] e h = e
  rests-in_flight (i ∷ l) e h = absurd (ground arith)

  pub rests-taken :
      (o : Option ℕ)
      → p.taken ≡ o
      → 0 < limit
      → p.in_flight ≡ []
      → step limit gets_permit p ≡ none
      → p.taken ≡ none
  unfolding step get_permit
  rests-taken none e pos f h = e
  rests-taken (some i) e pos f h = absurd (ground arith)

  pub rests-task :
      (l : List ℕ)
      → p.task ≡ l
      → p.taken ≡ none
      → p.stopped ≡ false
      → step limit takes p ≡ none
      → p.task ≡ []
  unfolding step take
  rests-task [] e t f h = e
  rests-task (i ∷ l) e t f h = absurd (ground arith)

  pub rests-permit :
      (o : Option ℕ) (i : ℕ)
      → p.taken ≡ o
      → o ≡ some i
      → step limit gets_permit p ≡ none
      → limit ≤ length p.in_flight
  unfolding step get_permit
  rests-permit none i e f h = absurd cc
  rests-permit (some x) i e f h = elim (Bool-cases (ltb (length p.in_flight) limit)) [
    | inl y ↦ absurd (ground arith)
    | inr n ↦ ground arith
  ]

  pub finish-possible :
      (j k : ℕ) (others : List ℕ)
      → pick j p.in_flight ≡ some (k, others)
      → step limit (finishes j) p ≢ none
  unfolding step finish
  finish-possible j k others e h = absurd (ground arith)
