-- ===== src/Runtime/Instances/Load.antt =====
-- `load` and `compute_usage_saturating` of rusty-workers-runtime/src/runtime.rs: what a runtime answers
-- for its load, a `u16`. `f64` is a parameter.
mod Tests
use summer21_rusty_workers.Prelude.{
  ℕ, zero, suc, ◌+◌, ◌%◌, ◌^◌, ◌≤◌, ◌≡◌, refl, Bool, true, false, List, [], ◌∷◌, ◌||◌, not,
  if◌then◌else◌, arith, inl, inr, Bool-cases,
}
use summer21_rusty_workers.Bytes.{Bytes}
use summer21_rusty_workers.Runtime.Instances.{WorkerState, Table, Runtime}

-- What the code uses of `f64`: a conversion from an integer, a quotient, two tests, and the product with
-- an integer that is converted to `u16`. A value that is finite and not above one gives at most the
-- factor.
pub record Floats : Type 1 where
  pub F64 : Type 0
  pub one : F64
  pub of_usize : ℕ → F64
  pub over : F64 → F64 → F64
  pub is_finite : F64 → Bool
  pub above_one : F64 → Bool
  pub scaled : F64 → ℕ → ℕ
  pub one-is_finite : is_finite one ≡ true
  pub one-above_one : above_one one ≡ false
  pub scaled-within :
      (usage : F64) (mul : ℕ)
      → is_finite usage ≡ true
      → above_one usage ≡ false
      → mul ≤ 65535
      → scaled usage mul ≤ mul

pub record Config : Type 0 where
  pub high_memory_threshold_bytes : ℕ
  pub max_num_of_instances : ℕ

abbrev length : Table → ℕ
length [] = 0
length (e ∷ table) = suc (length table)

-- The sum of `usize`s is written without its overflow.
total_memory : Table → ℕ
total_memory [] = 0
total_memory ((k, w) ∷ table) = w.memory_bytes + total_memory table

module _ (floats : Floats) where
  open floats use {F64, one, of_usize, over, is_finite, above_one, scaled}

  saturated : F64 → F64
  saturated usage = if not (is_finite usage) || above_one usage then one else usage

  pub compute_usage_saturating : F64 → F64 → ℕ → ℕ
  unfolding saturated
  compute_usage_saturating used total mul = scaled (saturated (over used total)) mul

  pub memory_usage : Config → Runtime → ℕ
  unfolding total_memory
  memory_usage config rt =
      compute_usage_saturating (of_usize (total_memory rt.instances))
        (of_usize config.high_memory_threshold_bytes) 30000

  pub instance_usage : Config → Runtime → ℕ
  instance_usage config rt =
      compute_usage_saturating (of_usize (length rt.instances))
        (of_usize config.max_num_of_instances) 30000

  -- The sum of `u16`s wraps around.
  pub load : Config → Runtime → ℕ
  unfolding memory_usage instance_usage
  load config rt = (memory_usage config rt + instance_usage config rt) % 2 ^ 16

  saturated-fits :
      (usage : F64) → (is_finite (saturated usage) ≡ true) × (above_one (saturated usage) ≡ false)
  unfolding saturated
  saturated-fits usage = elim (Bool-cases (is_finite usage)) [
    | inl e ↦ elim (Bool-cases (above_one usage)) [
      | inl f ↦ rw e rw f (floats.one-is_finite, floats.one-above_one)
      | inr f ↦ rw e rw f (e, f)
    ]
    | inr e ↦ rw e (floats.one-is_finite, floats.one-above_one)
  ]

  usage-within :
      (used total : F64) (mul : ℕ) → mul ≤ 65535 → compute_usage_saturating used total mul ≤ mul
  unfolding compute_usage_saturating
  usage-within used total mul small =
      let (finite, below) = saturated-fits (over used total) in
      floats.scaled-within (saturated (over used total)) mul finite below small

  -- The sum of the two usages fits a `u16`, so that it does not wrap around, and a load is at most 60000.
  load-bounded :
      (config : Config) (rt : Runtime)
      → (load config rt ≡ memory_usage config rt + instance_usage config rt)
        × (load config rt ≤ 60000)
  unfolding load memory_usage instance_usage
  load-bounded config rt = (omega (arith, m, i), omega (arith, m, i))
    where
      m : memory_usage config rt ≤ 30000
      m = usage-within _ _ 30000 (omega arith)

      i : instance_usage config rt ≤ 30000
      i = usage-within _ _ 30000 (omega arith)
