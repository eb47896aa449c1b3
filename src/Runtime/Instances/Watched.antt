-- ===== src/Runtime/Instances/Watched.antt =====
-- The workers of the table and their monitors.
use summer21_rusty_workers.Prelude.{
  ◌≡◌, refl, sym, ap, subst, ◌∙◌, Bool, true, false, Option, none, some, List, [], ◌∷◌, arith, inl,
  inr, Bool-cases, some-inj,
}
use summer21_rusty_workers.Bytes.{Bytes, equals, equals→eq}
use summer21_rusty_workers.Runtime.Instances.{
  WorkerState, peek, remove, is_some, occurs, drop_one, Runtime, new, release, take_out, evict,
  terminate, begin, fetch, end_of, end_fetch, Spawned, started, refused, lost, spawn, stop_monitor,
  end_monitor, update, Event, spawns, fetches, fetch_ends, terminates, expires, monitor_ends,
  reports, unless_used, step, and_then, steps,
}
use summer21_rusty_workers.Runtime.Instances.Entries.{
  peek-remove_same, peek-remove_other, peek-set_memory, drop_one-other,
}

abbrev pub is_listed : Bytes → Runtime → Bool
is_listed h rt = is_some (peek h rt.instances)

release-instances : (k : Bytes) (rt : Runtime) → (release k rt).instances ≡ rt.instances
unfolding release
release-instances k rt = ground arith

release-monitored : (k : Bytes) (rt : Runtime) → (release k rt).monitored ≡ rt.monitored
unfolding release
release-monitored k rt = ground arith

-- An eviction takes one worker out of the table, and ends no monitor.
record Evicted (k : Bytes) (rt q : Runtime) : Type 0 where
  monitored : q.monitored ≡ rt.monitored
  same : is_listed k q ≡ false
  other : (h : Bytes) → equals k h ≡ false → is_listed h q ≡ is_listed h rt

take_out-Evicted :
    (k : Bytes) (rt : Runtime) (o : Option WorkerState)
    → peek k rt.instances ≡ o
    → Evicted k rt (take_out k rt o)
unfolding take_out is_some
take_out-Evicted k rt none e = record { monitored = refl; same = ap is_some e; other = λ h n. refl }
take_out-Evicted k rt (some w) e = record {
  monitored = release-monitored k (record rt { instances = remove k rt.instances });
  same =
      ap (λ t. is_some (peek k t))
        (release-instances k (record rt { instances = remove k rt.instances }))
      ∙ ap is_some (peek-remove_same k rt.instances);
  other = λ h n.
      ap (λ t. is_some (peek h t))
        (release-instances k (record rt { instances = remove k rt.instances }))
      ∙ ap is_some (peek-remove_other k h rt.instances n);
}

evict-Evicted : (k : Bytes) (rt : Runtime) → Evicted k rt (evict k rt)
unfolding evict
evict-Evicted k rt = take_out-Evicted k rt (peek k rt.instances) refl

true-false : (b : Bool) → b ≡ true → b ≡ false → ⊥
true-false b e f = cc

Evicted-gone :
    (k h : Bytes) (rt q : Runtime) → Evicted k rt q → equals k h ≡ true → is_listed h q ≡ true → ⊥
Evicted-gone k h rt q v y there =
    true-false (is_listed h q) there (subst (λ x. is_listed x q ≡ false) (equals→eq k h y) v.same)

-- Every worker that a fetch can find has a monitor that runs.
abbrev pub Watched : Runtime → Type 0
Watched rt = (h : Bytes) → is_listed h rt ≡ true → occurs h rt.monitored ≡ true

abbrev Fine : Option Runtime → Type 0
Fine none = Unit
Fine (some q) = Watched q

evict-Watched : (k : Bytes) (rt : Runtime) → Watched rt → Watched (evict k rt)
evict-Watched k rt all h there = elim (Bool-cases (equals k h)) [
  | inl y ↦ absurd (Evicted-gone k h rt (evict k rt) v y there)
  | inr n ↦ ap (occurs h) v.monitored ∙ all h (sym (v.other h n) ∙ there)
]
  where
    v : Evicted k rt (evict k rt)
    v = evict-Evicted k rt

stop_monitor-Fine :
    (k : Bytes) (rt : Runtime) (o : Option (List Bytes))
    → drop_one k rt.monitored ≡ o
    → Watched rt
    → Fine (stop_monitor k rt o)
unfolding stop_monitor
stop_monitor-Fine k rt none e all = tt
stop_monitor-Fine k rt (some l) e all = λ h there. elim (Bool-cases (equals k h)) [
  | inl y ↦ absurd (
      Evicted-gone k h (record rt { monitored = l }) (evict k (record rt { monitored = l })) v y
        there)
  | inr n ↦
      ap (occurs h) v.monitored
      ∙ drop_one-other k h rt.monitored l n e
      ∙ all h (sym (v.other h n) ∙ there)
]
  where
    v : Evicted k (record rt { monitored = l }) (evict k (record rt { monitored = l }))
    v = evict-Evicted k (record rt { monitored = l })

end_of-Fine :
    (k : Bytes) (rt : Runtime) (o : Option (List Bytes)) → Watched rt → Fine (end_of k rt o)
unfolding end_of
end_of-Fine k rt none all = tt
end_of-Fine k rt (some l) all = λ h there.
    ap (occurs h) (release-monitored k q)
    ∙ all h (ap (λ t. is_some (peek h t)) (sym (release-instances k q)) ∙ there)
  where
    q : Runtime
    q = record rt { fetching = l }

begin-Watched :
    (k : Bytes) (rt : Runtime) (o : Option WorkerState) → Watched rt → Watched (begin k rt o).1
unfolding begin
begin-Watched k rt none all = all
begin-Watched k rt (some w) all = all

spawn-Fine :
    (k : Bytes) (result : Spawned) (rt : Runtime) (used : Bool)
    → Watched rt
    → Fine (unless_used used (spawn k result rt).1)
unfolding unless_used spawn peek occurs is_some
spawn-Fine k result rt true all = tt
spawn-Fine k started rt false all = λ h there. elim (Bool-cases (equals k h)) [
  | inl y ↦ ground arith
  | inr n ↦ ground (arith, all h)
]
spawn-Fine k (refused x) rt false all = all
spawn-Fine k lost rt false all = all

step-Fine : (e : Event) (rt : Runtime) → Watched rt → Fine (step e rt)
unfolding step fetch end_fetch terminate end_monitor update
step-Fine (spawns k result) rt all = spawn-Fine k result rt (occurs k rt.spawned) all
step-Fine (fetches k) rt all = begin-Watched k rt (peek k rt.instances) all
step-Fine (fetch_ends k) rt all = end_of-Fine k rt (drop_one k rt.fetching) all
step-Fine (terminates k) rt all = evict-Watched k rt all
step-Fine (expires k) rt all = evict-Watched k rt all
step-Fine (monitor_ends k) rt all = stop_monitor-Fine k rt (drop_one k rt.monitored) refl all
step-Fine (reports k n) rt all = λ h there. all h (sym (peek-set_memory k h n rt.instances) ∙ there)

and_then-Watched :
    (es : List Event) (r : Runtime) (o : Option Runtime)
    → Fine o
    → ((q : Runtime) → Watched q → steps es q ≡ some r → Watched r)
    → and_then o (λ q. steps es q) ≡ some r
    → Watched r
unfolding and_then
and_then-Watched es r none all f h = absurd cc
and_then-Watched es r (some q) all f h = f q all h

steps-Fine : (es : List Event) (rt r : Runtime) → Watched rt → steps es rt ≡ some r → Watched r
unfolding steps
steps-Fine [] rt r all h = subst Watched (some-inj h) all
steps-Fine (e ∷ es) rt r all h =
    and_then-Watched es r (step e rt) (step-Fine e rt all) (λ q a. steps-Fine es q r a) h

-- In every state that can be reached, each worker of the table has a monitor task that still runs, so its
-- time limit is enforced.
pub steps-Watched : (es : List Event) (rt : Runtime) → steps es new ≡ some rt → Watched rt
unfolding peek is_some
steps-Watched es rt = steps-Fine es new rt (λ h there. absurd cc)
