-- ===== src/Runtime/MemoryPool/Calls.antt =====
-- Any sequence of calls of V8 keeps the books.
use summer21_rusty_workers.Prelude.{ℕ, ◌<◌, ◌^◌, List, [], ◌∷◌, arith}
use summer21_rusty_workers.Bytes.{Bytes}
use summer21_rusty_workers.Runtime.MemoryPool.{
  Heap, create, allocate, allocate_uninitialized, free, reallocate,
}
use summer21_rusty_workers.Runtime.MemoryPool.Accounting.{
  Accounted, Owns, allocate-Accounted, allocate_uninitialized-Accounted, free-Accounted,
}
use summer21_rusty_workers.Runtime.MemoryPool.Reallocation.{
  reallocate-Reallocated, Reallocated-Accounted,
}

pub data Call : Type 0 where
  allocates : ℕ → ℕ → Call
  allocates_uninitialized : ℕ → Bytes → Call
  frees : ℕ → ℕ → Call
  reallocates : ℕ → ℕ → ℕ → ℕ → Call

abbrev pub step : Heap → Call → Heap
step h (allocates address n) = (allocate address n h).1
step h (allocates_uninitialized address garbage) = (allocate_uninitialized address garbage h).1
step h (frees address n) = free address n h
step h (reallocates address prev oldlen newlen) = (reallocate address prev oldlen newlen h).1

-- V8 gives back and resizes only blocks that it has, with their lengths.
abbrev pub Respects : Heap → Call → Type 0
Respects h (allocates _ _) = Unit
Respects h (allocates_uninitialized _ _) = Unit
Respects h (frees address n) = Owns address n h
Respects h (reallocates _ prev oldlen _) = Owns prev oldlen h

abbrev pub run : Heap → List Call → Heap
run h [] = h
run h (c ∷ cs) = run (step h c) cs

abbrev pub AllRespect : Heap → List Call → Type 0
AllRespect h [] = Unit
AllRespect h (c ∷ cs) = Respects h c × AllRespect (step h c) cs

step-Accounted :
    {budget : ℕ} (h : Heap) (c : Call)
    → Respects h c
    → Accounted budget h
    → Accounted budget (step h c)
step-Accounted h (allocates address n) o a = allocate-Accounted address n h a
step-Accounted h (allocates_uninitialized address garbage) o a =
    allocate_uninitialized-Accounted address garbage h a
step-Accounted h (frees address n) o a = free-Accounted address n h o a
step-Accounted h (reallocates address prev oldlen newlen) o a =
    Reallocated-Accounted a (reallocate-Reallocated address prev oldlen newlen h o a)

run-keeps :
    {budget : ℕ} (h : Heap) (cs : List Call)
    → AllRespect h cs
    → Accounted budget h
    → Accounted budget (run h cs)
run-keeps h [] o a = a
run-keeps h (c ∷ cs) o a = run-keeps (step h c) cs o.1 (step-Accounted h c o.0 a)

-- From an empty heap with a budget that fits a usize, after any calls that give back and resize only
-- blocks that are there, what is left of the budget and what is in use make up the budget.
pub run-Accounted :
    (budget : ℕ) (cs : List Call)
    → budget < 2 ^ 64
    → AllRespect (record { pool = create budget; blocks = [] }) cs
    → Accounted budget (run (record { pool = create budget; blocks = [] }) cs)
unfolding create
run-Accounted budget cs fits o = run-keeps _ cs o (record { total = omega arith; fits = fits })
