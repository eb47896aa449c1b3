-- ===== src/Runtime/Io/Buffers/Alive.antt =====
-- The buffers that tasks hold, and the set.
use summer21_rusty_workers.Prelude.{
  ℕ, ◌≤◌, ◌<◌, ◌≡◌, refl, ap, ◌∙◌, subst, inl, inr, Bool, true, false, Option, none, some, List, [],
  ◌∷◌, ◌==◌, if◌then◌else◌, arith, Bool-cases, le_or_lt,
}
use summer21_rusty_workers.Prelude.Pick.{pick, count, pick-count}
use summer21_rusty_workers.Runtime.MemoryPool.{MemoryPool, take_bytes}
use summer21_rusty_workers.Runtime.Io.Buffers.{
  Buffers, find, take_out, Event, allocates, drops, unwraps, collects, Progress, goes_on, unwrapped,
  cannot, panics, insert_if_free, allocated, allocate, drop_remote, take_buffer, unwrap_remote, gc,
  step,
}

true-false : false ≡ true → ⊥
true-false e = cc

abbrev is_there : Option (Option ℕ) → Bool
is_there none = false
is_there (some none) = false
is_there (some (some buf)) = true

-- Each address belongs to one remote buffer at most, whose `ArrayBuffer` is in the set.
record Alive (b : Buffers) : Type 0 where
  once : (k : ℕ) → count k b.remote ≤ 1
  there : (k : ℕ) → 0 < count k b.remote → is_there (find k b.set) ≡ true

abbrev Fine : Progress → Type 0
Fine (goes_on b) = Alive b
Fine (unwrapped none b) = ⊥
Fine (unwrapped (some buf) b) = Alive b
Fine cannot = Unit
Fine panics = ⊥

find-gc :
    (k : ℕ) (remote : List ℕ) (set : List (ℕ × Option ℕ))
    → 0 < count k remote
    → find k (gc remote set) ≡ find k set
unfolding find gc
find-gc k remote [] h = refl
find-gc k remote ((address, buf) ∷ set) h = elim (Bool-cases (address == k)) [
  | inl e ↦ grind (arith, find-gc k remote set h)
  | inr e ↦ grind (arith, find-gc k remote set h)
]

find-take_out :
    (j k : ℕ) (set : List (ℕ × Option ℕ)) → (j == k) ≡ false → find k (take_out j set) ≡ find k set
unfolding find take_out
find-take_out j k [] n = refl
find-take_out j k ((address, buf) ∷ set) n = ground (arith, find-take_out j k set n)

abbrev one_if : Bool → ℕ
one_if t = if t then 1 else 0

same : (j k : ℕ) → (j == k) ≡ true → j ≡ k
same j k e = ground arith

self : (k : ℕ) → (k == k) ≡ true
self k = ground arith

free-count :
    (address : ℕ) (b : Buffers) → Alive b → find address b.set ≡ none → count address b.remote ≡ 0
free-count address b a e = elim (le_or_lt (count address b.remote) 0) [
  | inl h ↦ omega (arith, h)
  | inr h ↦ absurd (true-false (subst (λ o. is_there o ≡ true) e (a.there address h)))
]

insert-Fine :
    (address buf : ℕ) (b : Buffers) (pool : MemoryPool) (o : Option (Option ℕ))
    → Alive b
    → find address b.set ≡ o
    → Fine (insert_if_free address buf b pool o)
unfolding insert_if_free find
insert-Fine address buf b pool (some x) a e = tt
insert-Fine address buf b pool none a e = record {
  once = λ k. elim (Bool-cases (address == k)) [
    | inl f ↦ rw f (
        omega
          (arith, subst (λ x. count x b.remote ≡ 0) (same address k f) (free-count address b a e)))
    | inr f ↦ rw f (omega (arith, a.once k))
  ];
  there = λ k. elim (Bool-cases (address == k)) [
    | inl f ↦ rw f (λ h. refl)
    | inr f ↦ rw f (λ h. a.there k (omega (arith, h)))
  ];
}

allocated-Fine :
    (address buf : ℕ) (b : Buffers) (o : Option MemoryPool)
    → Alive b
    → Fine (allocated address buf b o)
unfolding allocated
allocated-Fine address buf b none a = a
allocated-Fine address buf b (some pool) a =
    insert-Fine address buf b pool (find address b.set) a refl

-- One of the remote buffers, and the others.
abbrev Splits : Buffers → ℕ → List ℕ → Type 0
Splits b address others = (k : ℕ) → count k b.remote ≡ count k (address ∷ others)

split-there :
    (address : ℕ) (others : List ℕ) (b : Buffers) (o : Option (Option ℕ))
    → Alive b
    → Splits b address others
    → find address b.set ≡ o
    → is_there o ≡ true
split-there address others b o a c e =
    subst (λ x. is_there x ≡ true) e
      (a.there address (omega (arith, c address, ap one_if (self address))))

take-Fine :
    (address : ℕ) (others : List ℕ) (b : Buffers) (o : Option (Option ℕ))
    → Alive b
    → Splits b address others
    → find address b.set ≡ o
    → Fine (take_buffer address others b o)
unfolding take_buffer
take-Fine address others b none a c e =
    absurd (true-false (split-there address others b none a c e))
take-Fine address others b (some none) a c e =
    absurd (true-false (split-there address others b (some none) a c e))
take-Fine address others b (some (some buf)) a c e = record {
  once = λ k. omega (arith, c k, a.once k);
  there = λ k h. elim (Bool-cases (address == k)) [
    | inl f ↦ absurd (omega (arith, c k, a.once k, h, ap one_if f))
    | inr f ↦ ap is_there (find-take_out address k b.set f) ∙ a.there k (omega (arith, c k, h))
  ];
}

drop-Fine :
    (j : ℕ) (b : Buffers) (o : Option (ℕ × List ℕ))
    → Alive b
    → pick j b.remote ≡ o
    → Fine (drop_remote b o)
unfolding drop_remote
drop-Fine j b none a e = tt
drop-Fine j b (some (address, others)) a e = record {
  once = λ k. omega (arith, a.once k, pick-count j b.remote address others k e);
  there = λ k h. a.there k (omega (arith, h, pick-count j b.remote address others k e));
}

unwrap-Fine :
    (j : ℕ) (b : Buffers) (o : Option (ℕ × List ℕ))
    → Alive b
    → pick j b.remote ≡ o
    → Fine (unwrap_remote b o)
unfolding unwrap_remote
unwrap-Fine j b none a e = tt
unwrap-Fine j b (some (address, others)) a e =
    take-Fine address others b (find address b.set) a
      (λ k. pick-count j b.remote address others k e) refl

-- Whatever happens to a set and its remote buffers: each remote buffer that exists has its `ArrayBuffer` in
-- the set, also after a collection; so that to unwrap it gives the buffer, and never panics.
step-Alive : (e : Event) (b : Buffers) → Alive b → Fine (step e b)
unfolding step allocate
step-Alive (allocates address buf len) b a = allocated-Fine address buf b (take_bytes len b.pool) a
step-Alive (drops j) b a = drop-Fine j b (pick j b.remote) a refl
step-Alive (unwraps j) b a = unwrap-Fine j b (pick j b.remote) a refl
step-Alive collects b a = record {
  once = a.once;
  there = λ k h. ap is_there (find-gc k b.remote b.set h) ∙ a.there k h;
}
