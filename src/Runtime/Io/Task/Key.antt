-- ===== src/Runtime/Io/Task/Key.antt =====
-- The calls that get and put the value of a key within its limits.
use summer21_rusty_workers.Prelude.{ℕ, ◌≤◌, ◌≡◌, refl, false, some, [], ◌∷◌, length, le→ltb}
use summer21_rusty_workers.Bytes.{Bytes}
use summer21_rusty_workers.BtreeMap
use summer21_rusty_workers.Types.{WorkerConfiguration}
use summer21_rusty_workers.Runtime.Io.Task.{
  AsyncCall, kv_get, kv_put, ask, request, prepare, settle, read_buffer, read_to_vec, or_refuse,
  namespace_id, max_kv_key_size, max_kv_value_size, worker_data_get, worker_data_put,
}

abbrev pub get_call : Bytes → Bytes → AsyncCall
get_call name key = record { v = kv_get name; buffers = key ∷ [] }

abbrev pub put_call : Bytes → Bytes → Bytes → ℕ → AsyncCall
put_call name key value ttl_ms = record { v = kv_put name false ttl_ms; buffers = key ∷ value ∷ [] }

module _ (conf : WorkerConfiguration) (name id key : Bytes)
    (found : BtreeMap.get name conf.kv_namespaces ≡ some id)
    (key_fits : length key ≤ max_kv_key_size) where
  pub request-get : request conf (get_call name key) ≡ ask (worker_data_get id key)
  unfolding request prepare settle read_buffer read_to_vec or_refuse namespace_id
  request-get = rw (le→ltb _ _ key_fits, found) refl

  pub request-put :
      (value : Bytes) (ttl_ms : ℕ)
      → length value ≤ max_kv_value_size
      → request conf (put_call name key value ttl_ms)
        ≡ ask (worker_data_put id key value false ttl_ms)
  unfolding request prepare settle read_buffer read_to_vec or_refuse namespace_id
  request-put value ttl_ms fits = rw (le→ltb _ _ key_fits, le→ltb _ _ fits, found) refl
