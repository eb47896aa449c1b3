-- ===== src/Proxy/Instance.antt =====
-- `get_instance` of rusty-workers-proxy/src/sched.rs: an instance from the queue, or a new worker on
-- a runtime that is drawn with a weight that falls with its load.
pub mod Choice
use summer21_rusty_workers.Prelude.{
  sum, ℕ, ◌+◌, ◌-◌, ◌<◌, ◌^◌, ◌≡◌, Option, none, some, List, [], ◌∷◌, map, length, get_elem?,
}
use summer21_rusty_workers.Bytes.{Bytes}
use summer21_rusty_workers.BtreeMap.{BtreeMap}
use summer21_rusty_workers.Types
use summer21_rusty_workers.Types.{WorkerConfiguration, WorkerHandle, GenericResult}
use summer21_rusty_workers.Proxy.State.{
  LocalConfig, RtState, ReadyInstance, AppState, Outcome, ok, err, panic, sched, internal,
  no_available_instance, update_last_active,
}
use summer21_rusty_workers.Prelude.{sum}
use summer21_rusty_workers.Proxy.Ready.{gc_ready_instances}

-- `rand`'s `WeightedIndex::new` followed by `sample`: no index where `new` refuses the weights.
-- It accepts a list that is not empty if the sum of the weights is positive and fits a u32.
pub record Sampler : Type 0 where
  pub sample : List ℕ → Option ℕ
  pub accepts :
      (ws : List ℕ)
      → 0 < sum ws
      → sum ws < 2 ^ 32
      → (i : ℕ) × (sample ws ≡ some i) × (i < length ws)

-- What a call of `get_instance` meets outside: the clock of the collection, what other tasks do to
-- the queue between the two locks, the reading of the clock for the instance, the random draw, and
-- what `spawn_worker` answers over a connection (`none` is an error of the transport).
pub record Surroundings : Type 0 where
  pub clock : ℕ → ℕ
  pub meanwhile : List ReadyInstance → List ReadyInstance
  pub now : ℕ
  pub sampler : Sampler
  pub spawn_worker : ℕ → Bytes → WorkerConfiguration → Bytes → Option (GenericResult WorkerHandle)

-- (u16::MAX - load) as u32 + 10000
unfoldable pub weight : RtState → ℕ
weight rt = 65535 - rt.load + 10000

-- `.await??`
spawned : Bytes → ℕ → ℕ → Option (GenericResult WorkerHandle) → Outcome ReadyInstance
spawned rtid client now none = err internal
spawned rtid client now (some (Types.GenericResult.err e)) = err internal
spawned rtid client now (some (Types.GenericResult.ok handle)) =
    ok (record { rtid = rtid; last_active = now; handle = handle; client = client })

spawn_on : Surroundings → AppState → Option (Bytes × RtState) → Outcome ReadyInstance
unfolding spawned
spawn_on w app none = panic
spawn_on w app (some (rtid, rt)) =
    spawned rtid rt.client w.now (w.spawn_worker rt.client app.id app.config app.bundle)

sampled : Surroundings → AppState → BtreeMap RtState → Option ℕ → Outcome ReadyInstance
unfolding spawn_on
sampled w app clients none = panic
sampled w app clients (some index) = spawn_on w app (get_elem? clients index)

-- the part of `get_instance` that creates an instance
pub create_instance : Surroundings → AppState → BtreeMap RtState → Outcome ReadyInstance
unfolding sampled weight
create_instance w app [] = err (sched no_available_instance)
create_instance w app (c ∷ clients) =
    sampled w app (c ∷ clients) (w.sampler.sample (map (λ x. weight x.1) (c ∷ clients)))

pop_front :
    Surroundings
    → AppState
    → BtreeMap RtState
    → List ReadyInstance
    → Outcome ReadyInstance × List ReadyInstance
unfolding create_instance update_last_active
pop_front w app clients [] = (create_instance w app clients, [])
pop_front w app clients (inst ∷ ready) = (ok (update_last_active w.now inst), ready)

-- AppState::get_instance: the result, the queue that is left and what was sent to termination
pub get_instance :
    LocalConfig
    → Surroundings
    → AppState
    → BtreeMap RtState
    → Outcome ReadyInstance × List ReadyInstance × List ReadyInstance
unfolding pop_front
get_instance c w app clients =
    let (kept, sent) = gc_ready_instances c w.clock app.ready_instances in
    let (result, ready) = pop_front w app clients (w.meanwhile kept) in (result, ready, sent)
