-- ===== src/Runtime/Io/System/Tracked.antt =====
-- The indices of the slab and the calls that they stand for.
use summer21_rusty_workers.Prelude.{
  ℕ, ◌≡◌, ◌≢◌, refl, ap, ◌∙◌, subst, inl, inr, Bool, true, false, Option, none, some, List, [], ◌∷◌,
  arith, ◌==◌, Bool-cases, Option-cases,
}
use summer21_rusty_workers.Prelude.Pick.{count, pick}
use summer21_rusty_workers.Runtime.Io.Waiter
use summer21_rusty_workers.Runtime.Io.Waiter.{IoWaiter}
use summer21_rusty_workers.Runtime.Io.Processor
use summer21_rusty_workers.Runtime.Io.Processor.{IoProcessor}
use summer21_rusty_workers.Runtime.Io.Processor.Drained.{is_internal}
use summer21_rusty_workers.Runtime.Io.Processor.Conserved.{issued, step-places, step-ends}
use summer21_rusty_workers.Runtime.Io.System.Slab.{
  Tracked, Fine, remove-keys, remove-found, issue-Fine, unblock-Fine,
}
use summer21_rusty_workers.Runtime.Io.System.{
  System, new, Event, issues, unblocks, waits, serves, drops_scope, drops_waiter, works, asks,
  Progress, goes_on, cannot, panics, after_wait, see_end, receive, serve, ask, after_work, may_work,
  drop_waiter, step, continue, steps,
}

internal-issued :
    (e : Processor.Event) (i : ℕ) → is_internal e ≡ true → count i (issued (e ∷ [])) ≡ 0
internal-issued (Processor.issues j) i h = absurd cc
internal-issued Processor.drops_scope i h = refl
internal-issued Processor.drops_waiter i h = refl
internal-issued Processor.takes i h = refl
internal-issued Processor.sees_kill i h = refl
internal-issued Processor.sees_close i h = refl
internal-issued Processor.gets_permit i h = refl
internal-issued (Processor.finishes j) i h = refl
internal-issued (Processor.cancels j) i h = refl

work-Fine :
    (limit : ℕ) (e : Processor.Event) (s : System) (o : Option IoProcessor)
    → Tracked s
    → ((i : ℕ) → count i (issued (e ∷ [])) ≡ 0)
    → Processor.step limit e s.processor ≡ o
    → Fine (after_work s o)
unfolding after_work
work-Fine limit e s none h none_new f = tt
work-Fine limit e s (some q) h none_new f = record {
  slab = λ i. omega (arith, h.slab i, step-places limit e s.processor q i f, none_new i);
  ends = λ g. let (a, b) = step-ends limit e s.processor q f g in b ∙ h.ends a;
  over = λ g. elim (Bool-cases q.stopped) [
    | inl y ↦ y
    | inr n ↦ absurd (grind (arith, h.over g, (step-ends limit e s.processor q f n).0))
  ];
  room = h.room;
}

see_end-Fine :
    (s : System) (c l : List ℕ) (stopped : Bool)
    → Tracked s
    → s.processor.stopped ≡ stopped
    → Fine (see_end s c l stopped)
unfolding see_end
see_end-Fine s [] [] true h e = record {
  slab = h.slab;
  ends = h.ends;
  over = λ g. e;
  room = h.room;
}
see_end-Fine s [] [] false h e = tt
see_end-Fine s [] (i ∷ l) stopped h e = tt
see_end-Fine s (i ∷ c) l stopped h e = tt

result-Fine :
    (s : System) (index : ℕ) (rest : List ℕ)
    → Tracked s
    → s.processor.results ≡ index ∷ rest
    → Fine (after_wait index rest s (Waiter.finish index s.waiter))
unfolding after_wait Waiter.finish Waiter.deliver
result-Fine s index rest h e = elim (Option-cases (Waiter.remove index s.waiter.inflight)) [
  | inl f ↦
      absurd
        (remove-found index s.waiter.inflight (grind (arith, h.slab index, ap (count index) e)) f)
  | inr ((cb, others), f) ↦ rw f (record {
    slab = λ i.
        omega (arith, h.slab i, ap (count i) e, remove-keys index cb s.waiter.inflight others i f);
    ends = h.ends;
    over = h.over;
    room = h.room;
  })
]

receive-Fine :
    (s : System) (b : Option ℕ) (closed : Bool) (r : List ℕ)
    → Tracked s
    → s.processor.results ≡ r
    → Fine (receive s b closed r)
unfolding receive
receive-Fine s (some i) closed r h e = tt
receive-Fine s none true r h e = tt
receive-Fine s none false [] h e = elim (Bool-cases s.ended) [
  | inl f ↦ rw f tt
  | inr f ↦ rw f (see_end-Fine s s.creations s.processor.in_flight s.processor.stopped h refl)
]
receive-Fine s none false (index ∷ rest) h e = elim (Bool-cases (count index s.creations == 0)) [
  | inr n ↦ rw n tt
  | inl y ↦ rw y (result-Fine s index rest h e)
]

serve-Fine :
    (granted : Bool) (s : System) (b : Option ℕ) (closed : Bool) (c : List ℕ)
    → Tracked s
    → Fine (serve granted s b closed c)
unfolding serve
serve-Fine granted s (some i) closed c h = tt
serve-Fine granted s none true c h = tt
serve-Fine granted s none false [] h = tt
serve-Fine granted s none false (i ∷ c) h = record {
  slab = h.slab;
  ends = h.ends;
  over = h.over;
  room = h.room;
}

ask-Fine :
    (s : System) (closed : Bool) (o : Option (ℕ × List ℕ)) → Tracked s → Fine (ask s closed o)
unfolding ask
ask-Fine s true o h = tt
ask-Fine s false none h = tt
ask-Fine s false (some (i, others)) h = record {
  slab = h.slab;
  ends = h.ends;
  over = h.over;
  room = h.room;
}

drop_waiter-Fine : (s : System) (b : Option ℕ) → Tracked s → Fine (drop_waiter s b)
unfolding drop_waiter
drop_waiter-Fine s none h = record { slab = h.slab; ends = h.ends; over = h.over; room = h.room }
drop_waiter-Fine s (some i) h = tt

may_work-internal : (e : Processor.Event) (s : System) → may_work e s ≡ true → is_internal e ≡ true
unfolding may_work
may_work-internal (Processor.finishes j) s h = refl
may_work-internal (Processor.issues j) s h = h
may_work-internal Processor.drops_scope s h = h
may_work-internal Processor.drops_waiter s h = h
may_work-internal Processor.takes s h = h
may_work-internal Processor.sees_kill s h = h
may_work-internal Processor.sees_close s h = h
may_work-internal Processor.gets_permit s h = h
may_work-internal (Processor.cancels j) s h = h

step-Fine : (limit : ℕ) (e : Event) (s : System) → Tracked s → Fine (step limit e s)
unfolding step
step-Fine limit (issues count_budget index cb) s h =
    issue-Fine count_budget index cb s s.blocked s.processor.closed h refl
step-Fine limit unblocks s h = unblock-Fine s s.blocked s.processor.stopped h refl
step-Fine limit waits s h = receive-Fine s s.blocked s.processor.closed s.processor.results h refl
step-Fine limit (serves granted) s h =
    serve-Fine granted s s.blocked s.processor.closed s.creations h
step-Fine limit drops_scope s h = work-Fine limit Processor.drops_scope s _ h (λ i. refl) refl
step-Fine limit drops_waiter s h = drop_waiter-Fine s s.blocked h
step-Fine limit (asks j) s h = ask-Fine s s.processor.closed (pick j s.processor.in_flight) h
step-Fine limit (works e) s h = elim (Bool-cases (may_work e s)) [
  | inl y ↦ rw y (
      work-Fine limit e s (Processor.step limit e s.processor) h
        (λ i. internal-issued e i (may_work-internal e s y)) refl)
  | inr n ↦ rw n tt
]

continue-Fine :
    (p : Progress) (f : System → Progress)
    → Fine p
    → ((q : System) → Tracked q → Fine (f q))
    → Fine (continue p f)
unfolding continue
continue-Fine (goes_on q) f h k = k q h
continue-Fine cannot f h k = tt
continue-Fine panics f h k = h

steps-Fine : (limit : ℕ) (es : List Event) (s : System) → Tracked s → Fine (steps limit es s)
unfolding steps
steps-Fine limit [] s h = h
steps-Fine limit (e ∷ es) s h =
    continue-Fine (step limit e s) (λ q. steps limit es q) (step-Fine limit e s h)
      (λ q. steps-Fine limit es q)

new-Tracked : (max_io_per_request : ℕ) → Tracked (new max_io_per_request)
unfolding Waiter.new
new-Tracked n = record {
  slab = λ i. refl;
  ends = λ h. refl;
  over = λ h. absurd cc;
  room = omega arith;
}

-- However the calls of an instance, the processor and its tasks, the waiting, and the drops of the scope
-- and of the waiter interleave: neither `wait` nor a failed `issue` panics for an index that is not in
-- the slab; and in each state that is reached, an index is in use in the slab exactly as often as a
-- call with it is in the channel, taken, in flight, answered but not received, or cancelled, or is
-- the one whose `issue` waits for room. So the slab forgets a call whose send failed. No call is
-- cancelled while the loop runs, and `wait` returns `None` only after the loop has ended.
pub steps-Tracked :
    (limit max_io_per_request : ℕ) (es : List Event)
    → (steps limit es (new max_io_per_request) ≢ panics)
      × ((s : System) → steps limit es (new max_io_per_request) ≡ goes_on s → Tracked s)
steps-Tracked limit n es = (λ e. subst Fine e fine, λ s e. subst Fine e fine)
  where
    fine : Fine (steps limit es (new n))
    fine = steps-Fine limit es (new n) (new-Tracked n)
