-- ===== src/Runtime/Io/Reply/Tests.antt =====
-- A value with a time to live, got back in time.
use summer21_rusty_workers.Prelude.{ℕ, ◌≡◌, refl, true, none, some, inr, [], ◌∷◌, arith}
use summer21_rusty_workers.Bytes.{equals}
use summer21_rusty_workers.BtreeMap.{get}
use summer21_rusty_workers.Types.{WorkerConfiguration}
use summer21_rusty_workers.Data.Table.Tests.{rows_table, no_rows}
use summer21_rusty_workers.Data.Kv.{executed, expiration_of}
use summer21_rusty_workers.Runtime.Io.Task.Key.{get_call, put_call}
use summer21_rusty_workers.Runtime.Io.Reply.{
  Services, Shared, granted, handle_task, replied, user_ok, user_ok_bool,
}
use summer21_rusty_workers.Runtime.Io.Reply.RoundTrip.{Well, handle_task-put-get}

abbrev conf : WorkerConfiguration
conf = record {
  executor = record {
    max_ab_memory_mb = 1;
    max_time_ms = 50;
    max_io_concurrency = 2;
    max_io_per_request = 10;
  };
  fetch_service = [];
  env = [];
  kv_namespaces = (1 ∷ [], 9 ∷ []) ∷ [];
}

abbrev services_at : ℕ → Services
services_at now = record {
  data_service = record { now = now; later = now; works = λ i. true; fate = executed };
  connects = true;
  fetch_service = λ req. none;
  allocation = λ i. granted;
}

services_at-Well : (now : ℕ) → Well rows_table (services_at now)
services_at-Well now = record { works = λ i. refl; fate = refl }

abbrev start : Shared rows_table
start = record { db = no_rows; fetch_client = true }

abbrev after : Shared rows_table
after =
    (handle_task rows_table conf (services_at 10) (put_call (1 ∷ []) (5 ∷ []) (6 ∷ 7 ∷ []) 30)
      start).1

found : get (1 ∷ []) conf.kv_namespaces ≡ some (9 ∷ [])
unfolding get equals
found = refl

expires : expiration_of 10 30 ≡ some 40
unfolding expiration_of
expires = refl

handle_task-put-get_example :
    ((handle_task rows_table conf
        (services_at 10)
        (put_call (1 ∷ []) (5 ∷ []) (6 ∷ 7 ∷ []) 30)
        start).0
      ≡ replied user_ok [])
    × ((handle_task rows_table conf (services_at 39) (get_call (1 ∷ []) (5 ∷ [])) after).0
        ≡ replied (user_ok_bool true) ((6 ∷ 7 ∷ []) ∷ []))
handle_task-put-get_example =
    handle_task-put-get rows_table conf (1 ∷ []) (9 ∷ []) (5 ∷ []) (6 ∷ 7 ∷ []) 30 40
      (services_at 10) (services_at 39) start after found (omega arith) (omega arith) expires
      (inr (omega arith)) (services_at-Well 10) (services_at-Well 39) refl refl
