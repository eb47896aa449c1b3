-- ===== src/Runtime/Io/Processor/Conserved.antt =====
-- Where the calls of a request are, and how many are in flight at once.
use summer21_rusty_workers.Prelude.{
  ℕ, ◌+◌, ◌≤◌, ◌≡◌, refl, ap, ◌∙◌, subst, inl, inr, Bool, true, false, Option, none, some, List, [],
  ◌∷◌, ◌++◌, length, ltb, arith, ◌==◌, if◌then◌else◌, Bool-cases, ltb→lt, some-inj,
}
use summer21_rusty_workers.Prelude.Pick.{pick, count, pick-length, pick-count}
use summer21_rusty_workers.Runtime.Io.Processor.{
  IoProcessor, new, Event, issues, drops_scope, drops_waiter, takes, sees_kill, sees_close,
  gets_permit, finishes, cancels, issue, take, see_kill, see_close, get_permit, finish, cancel,
  step, and_then, steps,
}

-- The calls that were issued.
abbrev pub issued : List Event → List ℕ
issued [] = []
issued (issues i ∷ es) = i ∷ issued es
issued (drops_scope ∷ es) = issued es
issued (drops_waiter ∷ es) = issued es
issued (takes ∷ es) = issued es
issued (sees_kill ∷ es) = issued es
issued (sees_close ∷ es) = issued es
issued (gets_permit ∷ es) = issued es
issued (finishes j ∷ es) = issued es
issued (cancels j ∷ es) = issued es

abbrev pub count_taken : ℕ → Option ℕ → ℕ
count_taken i none = 0
count_taken i (some j) = if j == i then 1 else 0

-- How often a call is somewhere.
abbrev pub places : ℕ → IoProcessor → ℕ
places i p =
    count i p.task
    + count_taken i p.taken
    + count i p.in_flight
    + count i p.results
    + count i p.cancelled

pub count-append : (i : ℕ) (xs ys : List ℕ) → count i (xs ++ ys) ≡ count i xs + count i ys
count-append i [] ys = omega arith
count-append i (x ∷ xs) ys = omega (arith, count-append i xs ys)

-- What a step keeps: `new_calls` is what it issues.
record Kept (limit : ℕ) (new_calls : List ℕ) (p q : IoProcessor) : Type 0 where
  within : length p.in_flight ≤ limit → length q.in_flight ≤ limit
  each : (i : ℕ) → places i q ≡ places i p + count i new_calls
  ends : q.stopped ≡ false → (p.stopped ≡ false) × (q.cancelled ≡ p.cancelled)

abbrev Keeps : ℕ → List ℕ → IoProcessor → Option IoProcessor → Type 0
Keeps limit new_calls p none = Unit
Keeps limit new_calls p (some q) = Kept limit new_calls p q

issue-Keeps : (limit i : ℕ) (p : IoProcessor) (s c : Bool) → Keeps limit (i ∷ []) p (issue i p s c)
unfolding issue
issue-Keeps limit i p false false = record {
  within = λ h. h;
  each = λ k. omega (arith, count-append k p.task (i ∷ []));
  ends = λ h. (h, refl);
}
issue-Keeps limit i p false true = tt
issue-Keeps limit i p true c = tt

take-Keeps :
    (limit : ℕ) (p : IoProcessor) (s : Bool) (o : Option ℕ) (l : List ℕ)
    → p.taken ≡ o
    → p.task ≡ l
    → Keeps limit [] p (take p s o l)
unfolding take
take-Keeps limit p false none (i ∷ l) e f = record {
  within = λ h. h;
  each = λ k. omega (arith, ap (count k) f, ap (count_taken k) e);
  ends = λ h. (h, refl);
}
take-Keeps limit p false none [] e f = tt
take-Keeps limit p false (some x) l e f = tt
take-Keeps limit p true o l e f = tt

see_kill-Keeps :
    (limit : ℕ) (p : IoProcessor) (s : Bool) (o : Option ℕ) (k : Bool)
    → Keeps limit [] p (see_kill p s o k)
unfolding see_kill
see_kill-Keeps limit p false none true = record {
  within = λ h. h;
  each = λ k. omega arith;
  ends = λ h. absurd cc;
}
see_kill-Keeps limit p false none false = tt
see_kill-Keeps limit p false (some x) k = tt
see_kill-Keeps limit p true o k = tt

see_close-Keeps :
    (limit : ℕ) (p : IoProcessor) (s : Bool) (o : Option ℕ) (l : List ℕ) (c : Bool)
    → Keeps limit [] p (see_close p s o l c)
unfolding see_close
see_close-Keeps limit p false none [] true = record {
  within = λ h. h;
  each = λ k. omega arith;
  ends = λ h. absurd cc;
}
see_close-Keeps limit p false none [] false = tt
see_close-Keeps limit p false none (i ∷ l) c = tt
see_close-Keeps limit p false (some x) l c = tt
see_close-Keeps limit p true o l c = tt

get_permit-Keeps :
    (limit : ℕ) (p : IoProcessor) (o : Option ℕ)
    → p.taken ≡ o
    → Keeps limit [] p (get_permit limit p o)
unfolding get_permit
get_permit-Keeps limit p none e = tt
get_permit-Keeps limit p (some i) e = elim (Bool-cases (ltb (length p.in_flight) limit)) [
  | inl f ↦ rw f (record {
    within = λ h. ltb→lt (length p.in_flight) limit f;
    each = λ k. omega (arith, ap (count_taken k) e);
    ends = λ h. (h, refl);
  })
  | inr f ↦ rw f tt
]

finish-Keeps :
    (limit j : ℕ) (p : IoProcessor) (o : Option (ℕ × List ℕ))
    → pick j p.in_flight ≡ o
    → Keeps limit [] p (finish p o)
unfolding finish
finish-Keeps limit j p none e = tt
finish-Keeps limit j p (some (i, others)) e = record {
  within = λ h. omega (arith, h, pick-length j p.in_flight i others e);
  each =
      λ k. omega (arith, count-append k p.results (i ∷ []), pick-count j p.in_flight i others k e);
  ends = λ h. (h, refl);
}

cancel-Keeps :
    (limit j : ℕ) (p : IoProcessor) (s : Bool) (o : Option (ℕ × List ℕ))
    → p.stopped ≡ s
    → pick j p.in_flight ≡ o
    → Keeps limit [] p (cancel p s o)
unfolding cancel
cancel-Keeps limit j p true none f e = tt
cancel-Keeps limit j p false o f e = tt
cancel-Keeps limit j p true (some (i, others)) f e = record {
  within = λ h. omega (arith, h, pick-length j p.in_flight i others e);
  each = λ k. omega (arith, pick-count j p.in_flight i others k e);
  ends = λ h. absurd cc;
}

step-Keeps :
    (limit : ℕ) (e : Event) (p : IoProcessor) → Keeps limit (issued (e ∷ [])) p (step limit e p)
unfolding step
step-Keeps limit (issues i) p = issue-Keeps limit i p p.stopped p.closed
step-Keeps limit drops_scope p = record {
  within = λ h. h;
  each = λ k. omega arith;
  ends = λ h. (h, refl);
}
step-Keeps limit drops_waiter p = record {
  within = λ h. h;
  each = λ k. omega arith;
  ends = λ h. (h, refl);
}
step-Keeps limit takes p = take-Keeps limit p p.stopped p.taken p.task refl refl
step-Keeps limit sees_kill p = see_kill-Keeps limit p p.stopped p.taken p.killed
step-Keeps limit sees_close p = see_close-Keeps limit p p.stopped p.taken p.task p.closed
step-Keeps limit gets_permit p = get_permit-Keeps limit p p.taken refl
step-Keeps limit (finishes j) p = finish-Keeps limit j p (pick j p.in_flight) refl
step-Keeps limit (cancels j) p = cancel-Keeps limit j p p.stopped (pick j p.in_flight) refl refl

some-Kept :
    (limit : ℕ) (calls : List ℕ) (p q : IoProcessor) (o : Option IoProcessor)
    → Keeps limit calls p o
    → o ≡ some q
    → Kept limit calls p q
some-Kept limit calls p q none k h = absurd cc
some-Kept limit calls p q (some r) k h = subst (Kept limit calls p) (some-inj h) k

-- A step moves calls from one place to another, and adds what it issues.
pub step-places :
    (limit : ℕ) (e : Event) (p q : IoProcessor) (i : ℕ)
    → step limit e p ≡ some q
    → places i q ≡ places i p + count i (issued (e ∷ []))
step-places limit e p q i h =
    let k = some-Kept limit (issued (e ∷ [])) p q (step limit e p) (step-Keeps limit e p) h in
    k.each i

-- Only a loop that has ended cancels calls, and it stays so.
pub step-ends :
    (limit : ℕ) (e : Event) (p q : IoProcessor)
    → step limit e p ≡ some q
    → q.stopped ≡ false
    → (p.stopped ≡ false) × (q.cancelled ≡ p.cancelled)
step-ends limit e p q h =
    let k = some-Kept limit (issued (e ∷ [])) p q (step limit e p) (step-Keeps limit e p) h in
    k.ends

issued-step :
    (i : ℕ) (e : Event) (es : List Event)
    → count i (issued (e ∷ es)) ≡ count i (issued (e ∷ [])) + count i (issued es)
issued-step i (issues j) es = omega arith
issued-step i drops_scope es = omega arith
issued-step i drops_waiter es = omega arith
issued-step i takes es = omega arith
issued-step i sees_kill es = omega arith
issued-step i sees_close es = omega arith
issued-step i gets_permit es = omega arith
issued-step i (finishes j) es = omega arith
issued-step i (cancels j) es = omega arith

Kept-trans :
    (limit : ℕ) (e : Event) (es : List Event) (p q r : IoProcessor)
    → Kept limit (issued (e ∷ [])) p q
    → Kept limit (issued es) q r
    → Kept limit (issued (e ∷ es)) p r
Kept-trans limit e es p q r a b = record {
  within = λ h. b.within (a.within h);
  each = λ i. omega (arith, a.each i, b.each i, issued-step i e es);
  ends = λ h. ((a.ends ((b.ends h).0)).0, (b.ends h).1 ∙ (a.ends ((b.ends h).0)).1);
}

and_then-Kept :
    (limit : ℕ) (e : Event) (es : List Event) (p r : IoProcessor) (o : Option IoProcessor)
    → Keeps limit (issued (e ∷ [])) p o
    → ((q : IoProcessor) → steps limit es q ≡ some r → Kept limit (issued es) q r)
    → and_then o (λ q. steps limit es q) ≡ some r
    → Kept limit (issued (e ∷ es)) p r
unfolding and_then
and_then-Kept limit e es p r none a f h = absurd cc
and_then-Kept limit e es p r (some q) a f h = Kept-trans limit e es p q r a (f q h)

steps-Kept :
    (limit : ℕ) (es : List Event) (p r : IoProcessor)
    → steps limit es p ≡ some r
    → Kept limit (issued es) p r
unfolding steps
steps-Kept limit [] p r h =
    subst (λ q. Kept limit [] p q) (some-inj h)
      (record { within = λ h. h; each = λ k. omega arith; ends = λ h. (h, refl) })
steps-Kept limit (e ∷ es) p r h =
    and_then-Kept limit e es p r (step limit e p) (step-Keeps limit e p)
      (λ q. steps-Kept limit es q r) h

pub record Conserved (limit : ℕ) (calls : List ℕ) (p : IoProcessor) : Type 0 where
  pub within : length p.in_flight ≤ limit
  pub each : (i : ℕ) → places i p ≡ count i calls
  pub ends : p.stopped ≡ false → p.cancelled ≡ []

-- Whatever happens to the loop and its tasks, in any order: at most `max_io_concurrency` calls are in
-- flight at once; each call that was issued is at one place, as often as it was issued: in the
-- channel, taken by the loop, in flight, answered or cancelled; and none is cancelled while the
-- loop runs.
pub steps-Conserved :
    (limit : ℕ) (es : List Event) (p : IoProcessor)
    → steps limit es new ≡ some p
    → Conserved limit (issued es) p
steps-Conserved limit es p h = record {
  within = k.within (omega arith);
  each = λ i. omega (arith, k.each i);
  ends = λ e. (k.ends e).1;
}
  where
    k : Kept limit (issued es) new p
    k = steps-Kept limit es new p h
