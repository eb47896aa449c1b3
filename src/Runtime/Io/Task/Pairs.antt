-- ===== src/Runtime/Io/Task/Pairs.antt =====
-- How KvCmpUpdate reads its assertions and writes from the buffers.
use summer21_rusty_workers.Prelude.{
  ap, ℕ, zero, suc, ◌+◌, ◌-◌, ◌<◌, ◌≡◌, ◌%◌, ◌^◌, inl, inr, refl, min, Option, none, some, List, [],
  ◌∷◌, ◌++◌, length, get_elem?, ltb, arith, le_or_lt, lt→ltb, le→ltb,
}
use summer21_rusty_workers.Bytes.{Bytes}
use summer21_rusty_workers.BtreeMap
use summer21_rusty_workers.Types.{WorkerConfiguration}
use summer21_rusty_workers.Runtime.Io.Task.{
  value_too_large, missing_value, key_too_large, missing_key, AsyncCall, kv_cmp_update, DataCall,
  worker_data_cmpupdate, Request, ask, Step, go, refused, failed, ◌>>=◌, UserError, Missing,
  read_to_vec, or_refuse, read_buffer, namespace_id, read_pairs, add_pair, prepare, settle, request,
  max_kv_key_size, max_kv_value_size,
}

-- The buffers from a number on are the keys and values of the pairs, in turn.
abbrev pub Holds : List Bytes → ℕ → List (Bytes × Bytes) → Type 0
Holds buffers index [] = Unit
Holds buffers index ((k, v) ∷ ps) =
    (get_elem? buffers index ≡ some k)
    × (get_elem? buffers (index + 1) ≡ some v)
    × Holds buffers (index + 2) ps

>>=-go :
    {A B : Type 0} (m : Step A) (f : A → Step B) {b : B}
    → (m >>= f) ≡ go b
    → (a : A) × (m ≡ go a) × (f a ≡ go b)
>>=-go (go a) f h = (a, refl, h)
>>=-go (refused e) f h = cc
>>=-go (failed m) f h = cc

read_buffer-go :
    (b : Option Bytes) (m : Missing) (limit : ℕ) (e : UserError) {x : Bytes}
    → read_buffer b m limit e ≡ go x
    → b ≡ some x
unfolding read_buffer or_refuse read_to_vec
read_buffer-go none m limit e h = cc
read_buffer-go (some buf) m limit e h = ground arith

record Splits (buffers : List Bytes) (n left i index : ℕ)
    (r : List (Bytes × Bytes) × List (Bytes × Bytes)) : Type 0 where
  in_order : Holds buffers index (r.0 ++ r.1)
  assertions : length r.0 ≡ min left (n - i)
  total : length r.0 + length r.1 ≡ left

add-Splits :
    (buffers : List Bytes) (n left i index : ℕ) (k v : Bytes)
    (r : List (Bytes × Bytes) × List (Bytes × Bytes))
    → get_elem? buffers index ≡ some k
    → get_elem? buffers (index + 1) ≡ some v
    → Splits buffers n left (i + 1) (index + 2) r
    → Splits buffers n (suc left) i index (add_pair (ltb i n) (k, v) r)
unfolding add_pair
add-Splits buffers n left i index k v (a ∷ as', ws) hk hv s =
    rw (lt→ltb i n (omega (arith, s.assertions)), add_pair)
      (record {
        in_order = (hk, hv, s.in_order);
        assertions = omega (arith, s.assertions);
        total = omega (arith, s.total);
      })
add-Splits buffers n left i index k v ([], ws) hk hv s = elim (le_or_lt n i) [
  | inl h ↦
      rw (le→ltb _ _ h, add_pair)
        (record {
          in_order = (hk, hv, s.in_order);
          assertions = omega arith;
          total = omega (arith, s.total);
        })
  | inr h ↦
      rw (lt→ltb _ _ h, add_pair)
        (record {
          in_order = (hk, hv, s.in_order);
          assertions = omega (arith, s.assertions);
          total = omega (arith, s.total);
        })
]

read_pairs-Splits :
    (buffers : List Bytes) (n left i index : ℕ) (r : List (Bytes × Bytes) × List (Bytes × Bytes))
    → read_pairs buffers n left i index ≡ go r
    → Splits buffers n left i index r
unfolding read_pairs
read_pairs-Splits buffers n zero i index r h =
    let e : r ≡ ([], []) = ground arith in
    rw e (record { in_order = tt; assertions = omega arith; total = omega arith })
read_pairs-Splits buffers n (suc left) i index r h =
    let (k, ek, h1) =
      >>=-go (read_buffer (get_elem? buffers index) missing_key max_kv_key_size key_too_large) _
        h in
    let (v, ev, h2) =
      >>=-go
        (read_buffer (get_elem? buffers (index + 1)) missing_value max_kv_value_size
          value_too_large)
        _ h1 in
    let (p, ep, h3) = >>=-go (read_pairs buffers n left (i + 1) (index + 2)) _ h2 in
    let e : r ≡ add_pair (ltb i n) (k, v) p = ground arith in
    rw e (
      add-Splits buffers n left i index k v p
        (read_buffer-go (get_elem? buffers index) missing_key max_kv_key_size key_too_large ek)
        (read_buffer-go (get_elem? buffers (index + 1)) missing_value max_kv_value_size
          value_too_large ev)
        (read_pairs-Splits buffers n left (i + 1) (index + 2) p ep))

settle-ask : (m : Step Request) {call : DataCall} → settle m ≡ ask call → m ≡ go (ask call)
unfolding settle
settle-ask (go r) h = ap go h
settle-ask (refused e) h = cc
settle-ask (failed m) h = cc

-- What is known of an update that reaches the data service.
pub record Update (buffers : List Bytes) (num_assertions num_writes : ℕ)
    (assertions writes : List (Bytes × Bytes)) : Type 0 where
  in_order : Holds buffers 0 (assertions ++ writes)
  assertion_count : length assertions ≡ num_assertions
  write_count : length writes ≡ num_writes

module _ (conf : WorkerConfiguration) (name : Bytes) (n w ttl : ℕ) (buffers : List Bytes) where
  abbrev pub task : AsyncCall
  task = record { v = kv_cmp_update name n w ttl; buffers = buffers }

  prepared :
      {id : Bytes} {assertions writes : List (Bytes × Bytes)} {ttl' : ℕ}
      → prepare conf (kv_cmp_update name n w ttl) buffers
        ≡ go (ask (worker_data_cmpupdate id assertions writes ttl'))
      → read_pairs buffers n ((n + w) % 2 ^ 32) 0 0 ≡ go (assertions, writes)
  unfolding prepare
  prepared h =
      let (id, ei, h1) = >>=-go (namespace_id conf name) _ h in
      let (p, ep, h2) = >>=-go (read_pairs buffers n ((n + w) % 2 ^ 32) 0 0) _ h1 in ground arith

  -- If the announced numbers of assertions and writes together fit a u32, an update that reaches the
  -- data service has exactly those numbers of both, read from the buffers in their order.
  pub request-Update :
      {id : Bytes} {assertions writes : List (Bytes × Bytes)} {ttl' : ℕ}
      → n + w < 2 ^ 32
      → request conf task ≡ ask (worker_data_cmpupdate id assertions writes ttl')
      → Update buffers n w assertions writes
  unfolding request
  request-Update fits h =
      let s = read_pairs-Splits buffers n ((n + w) % 2 ^ 32) 0 0 _ (prepared (settle-ask _ h)) in
      record {
        in_order = s.in_order;
        assertion_count = omega (arith, s.assertions);
        write_count = omega (arith, s.assertions, s.total);
      }

  -- If they add up to 2 ^ 32, no buffer is read: the update that reaches the data service has no
  -- assertion and no write.
  pub request-wraps :
      (id : Bytes)
      → BtreeMap.get name conf.kv_namespaces ≡ some id
      → n + w ≡ 2 ^ 32
      → request conf task ≡ ask (worker_data_cmpupdate id [] [] ttl)
  unfolding request read_pairs namespace_id prepare settle or_refuse
  request-wraps id found wraps = rw (found, wraps)
