-- ===== src/Runtime/Protected/Tests.antt =====
-- A script that calls the host, and then uses up the heap.
use summer21_rusty_workers.Prelude.{◌≡◌, refl, true, false}
use summer21_rusty_workers.Runtime.Protected.{
  IsolateConfig, nil, cons, calls_host, uses_up, start, returns, protected_js,
}
use summer21_rusty_workers.Runtime.Protected.Outcomes.{protected_js-ended}

abbrev conf : IsolateConfig
conf = record { max_memory_bytes = 1000; host_entry_threshold_memory_bytes = 100 }

protected_js-ended_example :
    protected_js conf 500
      (cons
        (calls_host 200 (cons (calls_host 950 nil false) nil) false)
        (cons (calls_host 950 nil false) (cons uses_up nil)))
      start
    ≡ returns false (record { jmp_env = false; poisoned = true })
protected_js-ended_example =
    protected_js-ended conf 500
      (cons (calls_host 200 (cons (calls_host 950 nil false) nil) false)
        (cons (calls_host 950 nil false) (cons uses_up nil)))
      start refl
