-- ===== src/Runtime/Io/Task/Limits.antt =====
-- What a worker can ask the data service for.
use summer21_rusty_workers.Prelude.{
  subst, ℕ, zero, suc, ◌+◌, ◌≤◌, ◌<◌, ◌≡◌, ◌%◌, ◌^◌, inl, inr, Bool, true, false, Option, none,
  some, List, length, All, ltb, if◌then◌else◌, arith, Option-cases, le_or_lt, lt→ltb, le→ltb,
}
use summer21_rusty_workers.Bytes.{Bytes}
use summer21_rusty_workers.BtreeMap
use summer21_rusty_workers.Types.{WorkerConfiguration}
use summer21_rusty_workers.Runtime.Io.Task.{
  limit_is_greater_than_max, AsyncCall, AsyncCallV, set_timeout, fetch, kv_get, kv_put, kv_delete,
  kv_scan, kv_cmp_update, DataCall, worker_data_get, worker_data_put, worker_data_delete,
  worker_data_scan_keys, worker_data_cmpupdate, Request, ask, Step, go, refused, failed, ◌>>=◌,
  UserError, Missing, read_to_vec, or_refuse, read_buffer, read_end, namespace_id, read_pairs,
  add_pair, prepare, settle, request, max_kv_key_size, max_kv_value_size, max_kv_scan_limit,
}

-- The namespace is one that the app is configured with.
abbrev pub IsConfigured : WorkerConfiguration → Bytes → Type 0
IsConfigured conf id = (name : Bytes) × (BtreeMap.get name conf.kv_namespaces ≡ some id)

abbrev pub PairFits : Bytes × Bytes → Type 0
PairFits p = (length p.0 ≤ max_kv_key_size) × (length p.1 ≤ max_kv_value_size)

abbrev pub EndFits : Option Bytes → Type 0
EndFits none = Unit
EndFits (some e) = length e ≤ max_kv_key_size

abbrev pub Permitted : WorkerConfiguration → DataCall → Type 0
Permitted conf (worker_data_get id key) = IsConfigured conf id × (length key ≤ max_kv_key_size)
Permitted conf (worker_data_put id key value _ _) = IsConfigured conf id × PairFits (key, value)
Permitted conf (worker_data_delete id key) = IsConfigured conf id × (length key ≤ max_kv_key_size)
Permitted conf (worker_data_scan_keys id start end limit) =
    IsConfigured conf id
    × (length start ≤ max_kv_key_size)
    × EndFits end
    × (limit ≤ max_kv_scan_limit)
Permitted conf (worker_data_cmpupdate id assertions writes _) =
    IsConfigured conf id × All PairFits assertions × All PairFits writes

-- What holds of the value of a step, if it has one.
abbrev Ensures : {A : Type 0} → WorkerConfiguration → (A → Type 0) → Step A → Type 0
Ensures conf P (go a) = P a
Ensures conf P (refused _) = Unit
Ensures conf P (failed _) = Unit

-- The same, not computed.
record Keeps {A : Type 0} (conf : WorkerConfiguration) (P : A → Type 0) (m : Step A) : Type 0 where
  holds : Ensures conf P m

bind-Keeps :
    {A B : Type 0} (conf : WorkerConfiguration) {P : A → Type 0} (Q : B → Type 0) (m : Step A)
    {f : A → Step B}
    → Keeps conf P m
    → ((a : A) → P a → Keeps conf Q (f a))
    → Keeps conf Q (m >>= f)
bind-Keeps conf Q (go a) h k = k a h.holds
bind-Keeps conf Q (refused e) h k = record { holds = tt }
bind-Keeps conf Q (failed m) h k = record { holds = tt }

pub read_to_vec-fits :
    (limit : ℕ) (buf : Bytes) → length buf ≤ limit → read_to_vec limit buf ≡ some buf
unfolding read_to_vec
read_to_vec-fits limit buf h = ground arith

pub read_to_vec-over : (limit : ℕ) (buf : Bytes) → limit < length buf → read_to_vec limit buf ≡ none
unfolding read_to_vec
read_to_vec-over limit buf h = ground arith

read_buffer-Ensures :
    (conf : WorkerConfiguration) (b : Option Bytes) (m : Missing) (limit : ℕ) (e : UserError)
    → Ensures conf (λ x. length x ≤ limit) (read_buffer b m limit e)
unfolding read_buffer
read_buffer-Ensures conf none m limit e = tt
read_buffer-Ensures conf (some buf) m limit e = elim (le_or_lt (length buf) limit) [
  | inl h ↦ rw (read_to_vec-fits limit buf h, or_refuse) h
  | inr h ↦ rw (read_to_vec-over limit buf h, or_refuse) tt
]

read_end-Ensures :
    (conf : WorkerConfiguration) (b : Option Bytes) → Ensures conf EndFits (read_end b)
unfolding read_end
read_end-Ensures conf none = tt
read_end-Ensures conf (some buf) = elim (le_or_lt (length buf) max_kv_key_size) [
  | inl h ↦ rw (read_to_vec-fits max_kv_key_size buf h, read_end) h
  | inr h ↦ rw (read_to_vec-over max_kv_key_size buf h, read_end) tt
]

namespace_id-Ensures :
    (conf : WorkerConfiguration) (name : Bytes)
    → Ensures conf (IsConfigured conf) (namespace_id conf name)
unfolding namespace_id
namespace_id-Ensures conf name = elim (Option-cases (BtreeMap.get name conf.kv_namespaces)) [
  | inl e ↦ rw (e, or_refuse) tt
  | inr (id, e) ↦ rw (e, or_refuse) (name, e)
]

abbrev PairsFit : List (Bytes × Bytes) × List (Bytes × Bytes) → Type 0
PairsFit r = All PairFits r.0 × All PairFits r.1

add_pair-PairsFit :
    (b : Bool) (p : Bytes × Bytes) (r : List (Bytes × Bytes) × List (Bytes × Bytes))
    → PairFits p
    → PairsFit r
    → PairsFit (add_pair b p r)
unfolding add_pair
add_pair-PairsFit true p (a, w) h k = ((h, k.0), k.1)
add_pair-PairsFit false p (a, w) h k = (k.0, (h, k.1))

module _ (conf : WorkerConfiguration) where
  read_buffer-bind :
      {B : Type 0} (Q : B → Type 0) (b : Option Bytes) (m : Missing) (limit : ℕ) (e : UserError)
      {f : Bytes → Step B}
      → ((x : Bytes) → length x ≤ limit → Keeps conf Q (f x))
      → Keeps conf Q (read_buffer b m limit e >>= f)
  read_buffer-bind Q b m limit e k =
      bind-Keeps conf Q (read_buffer b m limit e)
        (record { holds = read_buffer-Ensures conf b m limit e }) k

  namespace_id-bind :
      {B : Type 0} (Q : B → Type 0) (name : Bytes) {f : Bytes → Step B}
      → ((id : Bytes) → IsConfigured conf id → Keeps conf Q (f id))
      → Keeps conf Q (namespace_id conf name >>= f)
  namespace_id-bind Q name k =
      bind-Keeps conf Q (namespace_id conf name) (record { holds = namespace_id-Ensures conf name })
        k

  read_end-bind :
      {B : Type 0} (Q : B → Type 0) (b : Option Bytes) {f : Option Bytes → Step B}
      → ((e : Option Bytes) → EndFits e → Keeps conf Q (f e))
      → Keeps conf Q (read_end b >>= f)
  read_end-bind Q b k =
      bind-Keeps conf Q (read_end b) (record { holds = read_end-Ensures conf b }) k

  read_pairs-Keeps :
      (buffers : List Bytes) (num_assertions left i index : ℕ)
      → Keeps conf PairsFit (read_pairs buffers num_assertions left i index)
  unfolding read_pairs
  read_pairs-Keeps buffers n zero i index = record { holds = (tt, tt) }
  read_pairs-Keeps buffers n (suc left) i index = read_buffer-bind PairsFit _ _ _ _ λ key hk.
      read_buffer-bind PairsFit _ _ _ _ λ value hv.
        bind-Keeps conf PairsFit _ (read_pairs-Keeps buffers n left (i + 1) (index + 2))
          λ pairs hp. record { holds = add_pair-PairsFit (ltb i n) (key, value) pairs (hk, hv) hp }

  abbrev Asks : Request → Type 0
  Asks (ask call) = Permitted conf call
  Asks _ = Unit

  scan-Keeps :
      (id start : Bytes) (end : Option Bytes) (limit : ℕ)
      → IsConfigured conf id
      → length start ≤ max_kv_key_size
      → EndFits end
      → Keeps conf Asks (
          if ltb max_kv_scan_limit limit
          then refused limit_is_greater_than_max
          else go (ask (worker_data_scan_keys id start end limit)))
  scan-Keeps id start end limit hi hs he = elim (le_or_lt limit max_kv_scan_limit) [
    | inl h ↦ rw (le→ltb _ _ h) (record { holds = (hi, hs, he, h) })
    | inr h ↦ rw (lt→ltb _ _ h) (record { holds = tt })
  ]

  prepare-Keeps : (v : AsyncCallV) (buffers : List Bytes) → Keeps conf Asks (prepare conf v buffers)
  unfolding prepare
  prepare-Keeps (set_timeout n) buffers = record { holds = tt }
  prepare-Keeps (fetch req) buffers = read_buffer-bind Asks _ _ _ _ λ body _. record { holds = tt }
  prepare-Keeps (kv_get name) buffers =
      read_buffer-bind Asks _ _ _ _
        λ key hk. namespace_id-bind Asks _ λ id hi. record { holds = (hi, hk) }
  prepare-Keeps (kv_put name if_not_exists ttl) buffers = read_buffer-bind Asks _ _ _ _ λ key hk.
      read_buffer-bind Asks _ _ _ _
        λ value hv. namespace_id-bind Asks _ λ id hi. record { holds = (hi, (hk, hv)) }
  prepare-Keeps (kv_delete name) buffers =
      read_buffer-bind Asks _ _ _ _
        λ key hk. namespace_id-bind Asks _ λ id hi. record { holds = (hi, hk) }
  prepare-Keeps (kv_scan name limit) buffers = read_buffer-bind Asks _ _ _ _ λ start hs.
      read_end-bind Asks _
        λ end he. namespace_id-bind Asks _ λ id hi. scan-Keeps id start end limit hi hs he
  prepare-Keeps (kv_cmp_update name n w ttl) buffers = namespace_id-bind Asks _ λ id hi.
      bind-Keeps conf Asks _ (read_pairs-Keeps buffers n ((n + w) % 2 ^ 32) 0 0)
        λ pairs hp. record { holds = (hi, hp.0, hp.1) }

  settle-Permitted :
      (m : Step Request) (call : DataCall)
      → Ensures conf Asks m
      → settle m ≡ ask call
      → Permitted conf call
  unfolding settle
  settle-Permitted (go r) call h e = subst Asks e h
  settle-Permitted (refused u) call h e = cc
  settle-Permitted (failed m) call h e = cc

-- Whatever a worker sends, a call reaches the data service only for a namespace of the app's
-- configuration, with keys, values and the limit of a scan within their bounds.
pub request-Permitted :
    (conf : WorkerConfiguration) (task : AsyncCall) (call : DataCall)
    → request conf task ≡ ask call
    → Permitted conf call
unfolding request
request-Permitted conf task call e =
    settle-Permitted conf (prepare conf task.v task.buffers) call
      (prepare-Keeps conf task.v task.buffers).holds e
