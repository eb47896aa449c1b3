-- ===== src/Proxy/Instance/Choice.antt =====
-- Where the instance of a request comes from.
use summer21_rusty_workers.Prelude.{
  zero, ℕ, suc, ◌*◌, ◌≤◌, ◌<◌, ◌≡◌, ◌≢◌, inl, inr, refl, ap, Option, none, some, List, [], ◌∷◌, map,
  arith, length, get_elem?, sum, Member,
}
use summer21_rusty_workers.Bytes.{Bytes}
use summer21_rusty_workers.BtreeMap.{BtreeMap}
use summer21_rusty_workers.Types
use summer21_rusty_workers.Types.{
  ExecutionError, WorkerConfiguration, WorkerHandle, GenericResult, GenericError,
}
use summer21_rusty_workers.Proxy.State.{
  LocalConfig, RtState, ReadyInstance, AppState, Outcome, ok, err, internal, update_last_active,
}
use summer21_rusty_workers.Proxy.Ready.{gc_ready_instances, gc_ready_instances-Collected, Collected}
use summer21_rusty_workers.Proxy.Instance.{
  Surroundings, weight, spawned, spawn_on, sampled, create_instance, pop_front, get_instance,
}

-- What `get_instance` does when no other task touches the queue between its two locks: it collects the
-- queue, and takes the instance at its front or, when none is left, creates one.
pub data Chosen (c : LocalConfig) (w : Surroundings) (app : AppState) (clients : BtreeMap RtState)
    (r : Outcome ReadyInstance × List ReadyInstance × List ReadyInstance) : Type 0 where
  reused :
      (inst : ReadyInstance)
      → r.0 ≡ ok (update_last_active w.now inst)
      → Collected c w.clock app.ready_instances (inst ∷ r.1) r.2
      → Chosen c w app clients r
  created :
      r.0 ≡ create_instance w app clients
      → r.1 ≡ []
      → Collected c w.clock app.ready_instances [] r.2
      → Chosen c w app clients r

front_Chosen :
    (c : LocalConfig) (w : Surroundings) (app : AppState) (clients : BtreeMap RtState)
    (kept sent : List ReadyInstance)
    → Collected c w.clock app.ready_instances kept sent
    → Chosen c w app clients
        ((pop_front w app clients kept).0, (pop_front w app clients kept).1, sent)
unfolding pop_front
front_Chosen c w app clients [] sent g = created refl refl g
front_Chosen c w app clients (inst ∷ kept) sent g = reused inst refl g

-- If no other task touches the queue between the two locks of the code: what goes to termination are
-- the oldest instances, as many as the queue is over its limit, and then those that were too old when
-- they were looked at, and nothing else. The request takes the next one, which was usable when it was
-- looked at, and those behind it stay, in order. Only if none is left is a worker created.
pub get_instance-Chosen :
    (c : LocalConfig) (w : Surroundings) (app : AppState) (clients : BtreeMap RtState)
    → ((q : List ReadyInstance) → w.meanwhile q ≡ q)
    → Chosen c w app clients (get_instance c w app clients)
unfolding get_instance
get_instance-Chosen c w app clients alone =
    let g = gc_ready_instances-Collected c w.clock app.ready_instances in
    rw (alone (gc_ready_instances c w.clock app.ready_instances).0)
      (front_Chosen c w app clients _ _ g)

abbrev pub max_clients : ℕ
max_clients = 56860

sum-weight :
    (clients : BtreeMap RtState) → sum (map (λ x. weight x.1) clients) ≤ 75535 * length clients
unfolding weight
sum-weight [] = omega arith
sum-weight ((rtid, rt) ∷ clients) = omega (arith, sum-weight clients)

sum-weight_pos :
    (c : Bytes × RtState) (clients : BtreeMap RtState)
    → 0 < sum (map (λ x. weight x.1) (c ∷ clients))
unfolding weight
sum-weight_pos c clients = omega arith

length-map {ℓ κ} :
    {A : Type ℓ} {B : Type κ} (f : A → B) (xs : List A) → length (map f xs) ≡ length xs
length-map f [] = refl
length-map f (x ∷ xs) = ap suc (length-map f xs)

get_elem?-Member :
    {A : Type 0} (xs : List A) (i : ℕ)
    → i < length xs
    → (x : A) × (get_elem? xs i ≡ some x) × Member x xs
get_elem?-Member [] i h = absurd (omega arith)
get_elem?-Member (x ∷ xs) zero h = (x, refl, inl refl)
get_elem?-Member (x ∷ xs) (suc i) h =
    let (y, e, m) = get_elem?-Member xs i (omega arith) in (y, e, inr m)

-- What comes of creating a worker, for a known client that is asked for a worker with the bundle and
-- the configuration of the app: an error when it cannot be reached or refuses, or the instance with
-- the handle that it answers with.
pub data Created (w : Surroundings) (app : AppState) (clients : BtreeMap RtState)
    (r : Outcome ReadyInstance) : Type 0 where
  unreached :
      (rtid : Bytes) (rt : RtState)
      → Member (rtid, rt) clients
      → w.spawn_worker rt.client app.id app.config app.bundle ≡ none
      → r ≡ err internal
      → Created w app clients r
  refused :
      (rtid : Bytes) (rt : RtState) (e : GenericError)
      → Member (rtid, rt) clients
      → w.spawn_worker rt.client app.id app.config app.bundle ≡ some (Types.GenericResult.err e)
      → r ≡ err internal
      → Created w app clients r
  fresh :
      (rtid : Bytes) (rt : RtState) (handle : WorkerHandle)
      → Member (rtid, rt) clients
      → w.spawn_worker rt.client app.id app.config app.bundle ≡ some (Types.GenericResult.ok handle)
      → r ≡ ok (record { rtid = rtid; last_active = w.now; handle = handle; client = rt.client })
      → Created w app clients r

spawned-Created :
    (w : Surroundings) (app : AppState) (clients : BtreeMap RtState) (rtid : Bytes) (rt : RtState)
    (reply : Option (GenericResult WorkerHandle))
    → Member (rtid, rt) clients
    → w.spawn_worker rt.client app.id app.config app.bundle ≡ reply
    → Created w app clients (spawned rtid rt.client w.now reply)
unfolding spawned
spawned-Created w app clients rtid rt none m e = unreached rtid rt m e refl
spawned-Created w app clients rtid rt (some (Types.GenericResult.err x)) m e =
    refused rtid rt x m e refl
spawned-Created w app clients rtid rt (some (Types.GenericResult.ok handle)) m e =
    fresh rtid rt handle m e refl

-- With at least one client and at most 56860, so that the weights fit a u32 and no draw panics: one
-- of the clients is asked for a worker with the bundle and the configuration of the app; the handle
-- that it answers with makes the new instance, and any error becomes an internal one.
pub create_instance-Created :
    (w : Surroundings) (app : AppState) (clients : BtreeMap RtState)
    → clients ≢ []
    → length clients ≤ max_clients
    → Created w app clients (create_instance w app clients)
unfolding create_instance
create_instance-Created w app [] h n = absurd (h refl)
create_instance-Created w app (c ∷ clients) h n =
    let (i, e, lt) =
      w.sampler.accepts (map (λ x. weight x.1) (c ∷ clients)) (sum-weight_pos c clients)
        (omega (arith, sum-weight (c ∷ clients))) in
    let (x, e', m) =
      get_elem?-Member (c ∷ clients) i
        (omega (arith, length-map (λ (x : Bytes × RtState). weight x.1) (c ∷ clients))) in
    rw (e, sampled, e', spawn_on) (spawned-Created w app (c ∷ clients) x.0 x.1 _ m refl)
