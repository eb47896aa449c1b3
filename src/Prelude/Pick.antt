-- ===== src/Prelude/Pick.antt =====
-- Taking one element out of a list of numbers.
use Prim.Native.Nat.{ℕ, zero, suc, ◌+◌}
use mathlib.Core.Path.{◌≡◌}
use mathlib.Core.Logic.{inl, inr}
use mathlib.Core.List.{List, [], ◌∷◌}
use mathlib.Core.Option.{Option, none, some}
use native.Mathlib.Omega.{arith}
use summer21_rusty_workers.Prelude.Tests.{◌==◌, if◌then◌else◌, Option-cases}
use summer21_rusty_workers.Prelude.Lists.{length}

abbrev pub count : ℕ → List ℕ → ℕ
count t [] = 0
count t (u ∷ l) = (if u == t then 1 else 0) + count t l

-- The element number i, and the others.
unfoldable pub pick : ℕ → List ℕ → Option (ℕ × List ℕ)
pick i [] = none
pick zero (t ∷ working) = some (t, working)
pick (suc i) (t ∷ working) = elim (pick i working) [
  | none ↦ none
  | some (u, others) ↦ some (u, t ∷ others)
]

pub pick-length :
    (i : ℕ) (l : List ℕ) (t : ℕ) (others : List ℕ)
    → pick i l ≡ some (t, others)
    → length l ≡ suc (length others)
unfolding pick
pick-length i [] t others h = cc
pick-length zero (u ∷ l) t others h = ground arith
pick-length (suc i) (u ∷ l) t others h = elim (Option-cases (pick i l)) [
  | inl e ↦ absurd (ground arith)
  | inr (r, e) ↦ ground (arith, pick-length i l r.0 r.1 e)
]

pub pick-count :
    (i : ℕ) (l : List ℕ) (t : ℕ) (others : List ℕ) (u : ℕ)
    → pick i l ≡ some (t, others)
    → count u l ≡ count u (t ∷ others)
unfolding pick
pick-count i [] t others u h = cc
pick-count zero (v ∷ l) t others u h = ground arith
pick-count (suc i) (v ∷ l) t others u h = elim (Option-cases (pick i l)) [
  | inl e ↦ absurd (ground arith)
  | inr (r, e) ↦ ground (arith, pick-count i l r.0 r.1 u e)
]
