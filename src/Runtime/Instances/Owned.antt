-- ===== src/Runtime/Instances/Owned.antt =====
-- Who holds the handle of a worker.
use summer21_rusty_workers.Prelude.{
  ℕ, suc, ◌+◌, ◌≡◌, refl, ap, subst, ◌∙◌, Bool, true, false, Option, none, some, List, [], ◌∷◌,
  ◌||◌, if◌then◌else◌, arith, inl, inr, Bool-cases, some-inj,
}
use summer21_rusty_workers.Bytes.{Bytes, equals, equals→eq, equals_refl}
use summer21_rusty_workers.Runtime.Instances.{
  WorkerState, peek, remove, is_some, occurs, drop_one, Runtime, new, is_held, release, take_out,
  evict, terminate, begin, fetch, end_of, end_fetch, Spawned, started, refused, lost, spawn,
  stop_monitor, end_monitor, update, Event, spawns, fetches, fetch_ends, terminates, expires,
  monitor_ends, reports, unless_used, step, and_then, steps,
}
use summer21_rusty_workers.Runtime.Instances.Entries.{
  bit, times, peek-remove_other, peek-set_memory, occurs-times, drop_one-other, drop_one-occurs,
}

-- How often a worker's handle was dropped, and whether it is held.
abbrev pub balance : Bytes → Runtime → ℕ
balance h rt = times h rt.dropped + bit (is_held h rt)

is_held-dropped :
    (h : Bytes) (l : List Bytes) (rt : Runtime)
    → is_held h (record rt { dropped = l }) ≡ is_held h rt
unfolding is_held
is_held-dropped h l rt = refl

release-same : (k : Bytes) (rt : Runtime) → balance k (release k rt) ≡ suc (times k rt.dropped)
unfolding release
release-same k rt = elim (Bool-cases (is_held k rt)) [
  | inl e ↦ rw e (omega (arith, ap bit e))
  | inr e ↦
      rw e
        (omega (arith, ap bit (is_held-dropped k (k ∷ rt.dropped) rt ∙ e), ap bit (equals_refl k)))
]

release-other :
    (k h : Bytes) (rt : Runtime) → equals k h ≡ false → balance h (release k rt) ≡ balance h rt
unfolding release
release-other k h rt n = elim (Bool-cases (is_held k rt)) [
  | inl e ↦ rw e refl
  | inr e ↦ rw e (omega (arith, ap bit (is_held-dropped h (k ∷ rt.dropped) rt), ap bit n))
]

-- What an operation keeps of every worker's balance.
abbrev Keeps : Runtime → Runtime → Type 0
Keeps rt q = (h : Bytes) → balance h q ≡ balance h rt

-- A worker's handle is released by one that held it, and no other worker's changes.
release-Keeps :
    (k : Bytes) (rt q : Runtime)
    → q.dropped ≡ rt.dropped
    → is_held k rt ≡ true
    → ((h : Bytes) → equals k h ≡ false → is_held h q ≡ is_held h rt)
    → Keeps rt (release k q)
release-Keeps k rt q d e f h = elim (Bool-cases (equals k h)) [
  | inl y ↦
      subst (λ x. balance x (release k q) ≡ balance x rt) (equals→eq k h y)
        (omega (arith, release-same k q, ap (times k) d, ap bit e))
  | inr n ↦ omega (arith, release-other k h q n, ap (times h) d, ap bit (f h n))
]

held-peek :
    (k : Bytes) (w : WorkerState) (rt : Runtime)
    → peek k rt.instances ≡ some w
    → is_held k rt ≡ true
unfolding is_held is_some
held-peek k w rt e = ground arith

held-fetching : (k : Bytes) (rt : Runtime) → occurs k rt.fetching ≡ true → is_held k rt ≡ true
unfolding is_held
held-fetching k rt e = ground arith

is_held-remove :
    (k h : Bytes) (rt : Runtime)
    → equals k h ≡ false
    → is_held h (record rt { instances = remove k rt.instances }) ≡ is_held h rt
unfolding is_held
is_held-remove k h rt n =
    ap (λ o. is_some o || occurs h rt.fetching) (peek-remove_other k h rt.instances n)

is_held-drop_one :
    (k h : Bytes) (rt : Runtime) (l : List Bytes)
    → drop_one k rt.fetching ≡ some l
    → equals k h ≡ false
    → is_held h (record rt { fetching = l }) ≡ is_held h rt
unfolding is_held
is_held-drop_one k h rt l e n =
    ap (λ b. is_some (peek h rt.instances) || b) (drop_one-other k h rt.fetching l n e)

take_out-Keeps :
    (k : Bytes) (rt : Runtime) (o : Option WorkerState)
    → peek k rt.instances ≡ o
    → Keeps rt (take_out k rt o)
unfolding take_out
take_out-Keeps k rt none e = λ h. refl
take_out-Keeps k rt (some w) e =
    release-Keeps k rt (record rt { instances = remove k rt.instances }) refl (held-peek k w rt e)
      (λ j n. is_held-remove k j rt n)

evict-Keeps : (k : Bytes) (rt : Runtime) → Keeps rt (evict k rt)
unfolding evict
evict-Keeps k rt = take_out-Keeps k rt (peek k rt.instances) refl

-- The balance of each worker, against how often it was spawned, is not changed.
abbrev Steady : Runtime → Option Runtime → Type 0
Steady rt none = Unit
Steady rt (some q) =
    (h : Bytes) → balance h q + times h rt.spawned ≡ balance h rt + times h q.spawned

release-spawned : (k : Bytes) (rt : Runtime) → (release k rt).spawned ≡ rt.spawned
unfolding release
release-spawned k rt = ground arith

take_out-spawned :
    (k : Bytes) (rt : Runtime) (o : Option WorkerState) → (take_out k rt o).spawned ≡ rt.spawned
unfolding take_out release
take_out-spawned k rt none = refl
take_out-spawned k rt (some w) = release-spawned k (record rt { instances = remove k rt.instances })

evict-Steady : (k : Bytes) (rt : Runtime) → Steady rt (some (evict k rt))
unfolding evict
evict-Steady k rt h =
    omega (arith, evict-Keeps k rt h, ap (times h) (take_out-spawned k rt (peek k rt.instances)))

end_of-Steady :
    (k : Bytes) (rt : Runtime) (o : Option (List Bytes))
    → drop_one k rt.fetching ≡ o
    → Steady rt (end_of k rt o)
unfolding end_of
end_of-Steady k rt none e = tt
end_of-Steady k rt (some l) e = λ h. omega (
  arith,
  release-Keeps k rt (record rt { fetching = l }) refl
      (held-fetching k rt (drop_one-occurs k rt.fetching l e))
      (λ j n. is_held-drop_one k j rt l e n) h,
  ap (times h) (release-spawned k (record rt { fetching = l })),
)

is_held-monitored :
    (h : Bytes) (l : List Bytes) (rt : Runtime)
    → is_held h (record rt { monitored = l }) ≡ is_held h rt
unfolding is_held
is_held-monitored h l rt = refl

stop_monitor-Steady :
    (k : Bytes) (rt : Runtime) (o : Option (List Bytes)) → Steady rt (stop_monitor k rt o)
unfolding stop_monitor
stop_monitor-Steady k rt none = tt
stop_monitor-Steady k rt (some l) = λ h.
    omega (arith, evict-Steady k (record rt { monitored = l }) h, ap bit (is_held-monitored h l rt))

is_held-begin :
    (k h : Bytes) (rt : Runtime)
    → is_held k rt ≡ true
    → is_held h (record rt { fetching = k ∷ rt.fetching }) ≡ is_held h rt
unfolding is_held occurs
is_held-begin k h rt e = elim (Bool-cases (equals k h)) [
  | inl y ↦ grind (arith, equals→eq k h y)
  | inr n ↦ ground arith
]

begin-Steady :
    (k : Bytes) (rt : Runtime) (o : Option WorkerState)
    → peek k rt.instances ≡ o
    → Steady rt (some (begin k rt o).1)
unfolding begin
begin-Steady k rt none e h = omega arith
begin-Steady k rt (some w) e h = omega (arith, ap bit (is_held-begin k h rt (held-peek k w rt e)))

update-Steady : (k : Bytes) (n : ℕ) (rt : Runtime) → Steady rt (some (update k n rt))
unfolding update is_held
update-Steady k n rt h =
    omega (arith, ap (λ b. bit (b || occurs h rt.fetching)) (peek-set_memory k h n rt.instances))

-- Every worker that started is held, by the table or by a fetch, or its handle was dropped, once.
abbrev pub Owned : Runtime → Type 0
Owned rt = (h : Bytes) → balance h rt ≡ times h rt.spawned

abbrev Fine : Option Runtime → Type 0
Fine none = Unit
Fine (some q) = Owned q

Steady-Fine : (rt : Runtime) (o : Option Runtime) → Owned rt → Steady rt o → Fine o
Steady-Fine rt none own s = tt
Steady-Fine rt (some q) own s = λ h. omega (arith, own h, s h)

is_held-start :
    (k h : Bytes) (rt : Runtime)
    → is_held h (spawn k started rt).1 ≡ (if equals k h then true else is_held h rt)
unfolding is_held is_some peek spawn
is_held-start k h rt = ground arith

start-Owned :
    (k : Bytes) (rt : Runtime)
    → Owned rt
    → occurs k rt.spawned ≡ false
    → Owned (spawn k started rt).1
unfolding spawn
start-Owned k rt own new_id h = elim (Bool-cases (equals k h)) [
  | inl y ↦
      subst (λ x. balance x (spawn k started rt).1 ≡ times x (spawn k started rt).1.spawned)
        (equals→eq k h y)
        (omega (
          arith,
          own k,
          occurs-times k rt.spawned new_id,
          ap bit
              (is_held-start k k rt ∙ ap (λ b. if b then true else is_held k rt) (equals_refl k)),
          ap bit (equals_refl k),
        ))
  | inr n ↦ omega (
    arith,
    own h,
    ap bit (is_held-start k h rt ∙ ap (λ b. if b then true else is_held h rt) n),
    ap bit n,
  )
]

spawn-Fine :
    (k : Bytes) (result : Spawned) (rt : Runtime) (used : Bool)
    → Owned rt
    → occurs k rt.spawned ≡ used
    → Fine (unless_used used (spawn k result rt).1)
unfolding unless_used spawn
spawn-Fine k result rt true own e = tt
spawn-Fine k started rt false own e = start-Owned k rt own e
spawn-Fine k (refused x) rt false own e = own
spawn-Fine k lost rt false own e = own

step-Fine : (e : Event) (rt : Runtime) → Owned rt → Fine (step e rt)
unfolding step fetch end_fetch terminate end_monitor
step-Fine (spawns k result) rt own = spawn-Fine k result rt (occurs k rt.spawned) own refl
step-Fine (fetches k) rt own =
    Steady-Fine rt (some (fetch k rt).1) own (begin-Steady k rt (peek k rt.instances) refl)
step-Fine (fetch_ends k) rt own =
    Steady-Fine rt _ own (end_of-Steady k rt (drop_one k rt.fetching) refl)
step-Fine (terminates k) rt own = Steady-Fine rt (some (terminate k rt).1) own (evict-Steady k rt)
step-Fine (expires k) rt own = Steady-Fine rt (some (evict k rt)) own (evict-Steady k rt)
step-Fine (monitor_ends k) rt own =
    Steady-Fine rt _ own (stop_monitor-Steady k rt (drop_one k rt.monitored))
step-Fine (reports k n) rt own = Steady-Fine rt (some (update k n rt)) own (update-Steady k n rt)

and_then-Owned :
    (es : List Event) (r : Runtime) (o : Option Runtime)
    → Fine o
    → ((q : Runtime) → Owned q → steps es q ≡ some r → Owned r)
    → and_then o (λ q. steps es q) ≡ some r
    → Owned r
unfolding and_then
and_then-Owned es r none own f h = absurd cc
and_then-Owned es r (some q) own f h = f q own h

steps-Fine : (es : List Event) (rt r : Runtime) → Owned rt → steps es rt ≡ some r → Owned r
unfolding steps
steps-Fine [] rt r own h = subst Owned (some-inj h) own
steps-Fine (e ∷ es) rt r own h =
    and_then-Owned es r (step e rt) (step-Fine e rt own) (λ q o. steps-Fine es q r o) h

-- However spawns, fetches, terminations, expiries, monitors and statistics interleave, the handle of a
-- worker that started is dropped once, and exactly when neither the table nor a fetch in flight
-- holds it any more.
pub steps-Owned : (es : List Event) (rt : Runtime) → steps es new ≡ some rt → Owned rt
unfolding is_held peek is_some occurs
steps-Owned es rt = steps-Fine es new rt (λ h. refl)
