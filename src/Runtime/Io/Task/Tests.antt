-- ===== src/Runtime/Io/Task/Tests.antt =====
-- Calls of a worker with one namespace.
use summer21_rusty_workers.Prelude.{◌-◌, ◌^◌, ◌≡◌, refl, some, [], ◌∷◌, List, arith}
use summer21_rusty_workers.Bytes.{Bytes, equals}
use summer21_rusty_workers.BtreeMap.{get}
use summer21_rusty_workers.Types.{WorkerConfiguration}
use summer21_rusty_workers.Runtime.Io.Task.{
  AsyncCall, kv_scan, worker_data_scan_keys, worker_data_cmpupdate, ask, request, prepare, settle,
  read_buffer, read_end, read_to_vec, or_refuse, namespace_id, read_pairs, add_pair,
}
use summer21_rusty_workers.Runtime.Io.Task.Limits.{Permitted, request-Permitted}
use summer21_rusty_workers.Runtime.Io.Task.Pairs.{Update, task, request-Update, request-wraps}

abbrev conf : WorkerConfiguration
conf = record {
  executor = record {
    max_ab_memory_mb = 1;
    max_time_ms = 50;
    max_io_concurrency = 2;
    max_io_per_request = 10;
  };
  fetch_service = [];
  env = [];
  kv_namespaces = (1 ∷ [], 9 ∷ []) ∷ [];
}

abbrev scan : AsyncCall
scan = record { v = kv_scan (1 ∷ []) 100; buffers = (5 ∷ []) ∷ (6 ∷ []) ∷ [] }

scanned : request conf scan ≡ ask (worker_data_scan_keys (9 ∷ []) (5 ∷ []) (some (6 ∷ [])) 100)
unfolding request prepare settle read_buffer read_end read_to_vec or_refuse namespace_id get equals
scanned = refl

request-Permitted_example :
    Permitted conf (worker_data_scan_keys (9 ∷ []) (5 ∷ []) (some (6 ∷ [])) 100)
request-Permitted_example = request-Permitted conf scan _ scanned

-- One assertion and one write.
abbrev buffers : List Bytes
buffers = (5 ∷ []) ∷ (6 ∷ []) ∷ (7 ∷ []) ∷ (8 ∷ []) ∷ []

updated :
    request conf (task conf (1 ∷ []) 1 1 30 buffers)
    ≡ ask (worker_data_cmpupdate (9 ∷ []) ((5 ∷ [], 6 ∷ []) ∷ []) ((7 ∷ [], 8 ∷ []) ∷ []) 30)
unfolding request prepare settle read_buffer read_to_vec or_refuse namespace_id get equals
    read_pairs add_pair
updated = refl

request-Update_example : Update buffers 1 1 ((5 ∷ [], 6 ∷ []) ∷ []) ((7 ∷ [], 8 ∷ []) ∷ [])
request-Update_example = request-Update conf (1 ∷ []) 1 1 30 buffers (omega arith) updated

found : get (1 ∷ []) conf.kv_namespaces ≡ some (9 ∷ [])
unfolding get equals
found = refl

request-wraps_example :
    request conf (task conf (1 ∷ []) (2 ^ 32 - 1) 1 30 buffers)
    ≡ ask (worker_data_cmpupdate (9 ∷ []) [] [] 30)
request-wraps_example =
    request-wraps conf (1 ∷ []) (2 ^ 32 - 1) 1 30 buffers (9 ∷ []) found (omega arith)
