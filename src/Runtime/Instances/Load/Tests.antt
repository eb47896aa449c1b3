-- ===== src/Runtime/Instances/Load/Tests.antt =====
-- Two workers, with fractions in place of floating point numbers.
use summer21_rusty_workers.Prelude.{ℕ, ◌*◌, ◌/◌, ◌≡◌, refl, [], ◌∷◌, arith, not, ltb, ◌==◌, min}
use summer21_rusty_workers.Runtime.Instances.{Runtime, new}
use summer21_rusty_workers.Runtime.Instances.Load.{
  Floats, Config, compute_usage_saturating, load, memory_usage, instance_usage,
}

abbrev fractions : Floats
fractions = record {
  F64 = ℕ × ℕ;
  one = (1, 1);
  of_usize = λ n. (n, 1);
  over = λ a b. (a.0 * b.1, a.1 * b.0);
  is_finite = λ a. not (a.1 == 0);
  above_one = λ a. ltb a.1 a.0;
  scaled = λ a n. min n ((a.0 * n) / a.1);
  one-is_finite = refl;
  one-above_one = refl;
  scaled-within = λ usage mul f a small. omega arith;
}

abbrev config : Config
config = record { high_memory_threshold_bytes = 1000; max_num_of_instances = 8 }

abbrev runtime : Runtime
runtime = record new {
  instances =
      (1 ∷ [], record { memory_bytes = 100 }) ∷ (2 ∷ [], record { memory_bytes = 300 }) ∷ [];
}

loads : load fractions config runtime ≡ 19500
unfolding load memory_usage instance_usage compute_usage_saturating
loads = refl
