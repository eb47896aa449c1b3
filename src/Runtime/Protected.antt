-- ===== src/Runtime/Protected.antt =====
-- `protected_js`, `_do_protected_call`, `oom_protected_callback`, `wrap_callback` and
-- `check_host_entry_memory` of rusty-workers-runtime/src/executor.rs: how a script that uses up the heap
-- is left by `longjmp`, and host code that does.
pub mod Outcomes
mod Tests
use summer21_rusty_workers.Prelude.{
  ℕ, ◌+◌, ◌-◌, ◌||◌, Bool, true, false, List, [], ◌∷◌, ltb, if◌then◌else◌,
}

-- IsolateConfig
pub record IsolateConfig : Type 0 where
  pub max_memory_bytes : ℕ
  pub host_entry_threshold_memory_bytes : ℕ

-- What V8 does in a protected call: the script calls a host function, with the heap of that size; or
-- it uses up the heap. While host code runs, V8 may run scripts again, as for a getter of the array of
-- buffers: these are the acts inside of a call. Whether V8 then uses up the heap, for the code behind
-- `wrap_callback` or for the exception that is thrown in its place, is the Boolean.
mutual
  pub data Act : Type 0 where
    calls_host : ℕ → Acts → Bool → Act
    uses_up : Act

  pub data Acts : Type 0 where
    nil : Acts
    cons : Act → Acts → Acts

-- Whether `JMP_ENV` holds a buffer, and whether the isolate has the `Poison` slot.
pub record Thread : Type 0 where
  pub jmp_env : Bool
  pub poisoned : Bool

abbrev pub start : Thread
start = record { jmp_env = false; poisoned = false }

-- How code goes on; after a panic the process is gone.
pub data Progress : Type 0 where
  goes_on : Bool → Progress
  jumps : Progress
  panics : Progress

pub data Protected : Type 0 where
  returns : Bool → Thread → Protected
  aborts : Protected

-- `true` is `Ok`
unfoldable pub check_host_entry_memory : IsolateConfig → ℕ → Bool
check_host_entry_memory conf total_heap_size =
    if ltb conf.max_memory_bytes total_heap_size
      || ltb (conf.max_memory_bytes - total_heap_size) conf.host_entry_threshold_memory_bytes
    then false
    else true

oom_protected_callback : Bool → Progress
oom_protected_callback true = jumps
oom_protected_callback false = panics

continue : Progress → (Bool → Progress) → Progress
continue (goes_on jmp_env) f = f jmp_env
continue jumps f = jumps
continue panics f = panics

-- the closure that `wrap_callback` calls, and what follows; `JMP_ENV` is empty inside
call_back : Bool → Progress → Bool → Progress
unfolding oom_protected_callback continue
call_back ooms inside true =
    continue inside (λ e. if ooms then oom_protected_callback false else goes_on true)
call_back ooms inside false = panics

-- Without enough memory an exception is thrown, which can use up the heap itself.
wrap_callback : IsolateConfig → ℕ → Bool → Progress → Bool → Progress
unfolding check_host_entry_memory call_back oom_protected_callback
wrap_callback conf size ooms inside jmp_env =
    if check_host_entry_memory conf size
    then call_back ooms inside jmp_env
    else (if ooms then oom_protected_callback jmp_env else goes_on jmp_env)

-- The acts of a script; those inside of a host function run with `JMP_ENV` empty.
mutual
  unfolding wrap_callback oom_protected_callback continue

  act : IsolateConfig → Act → Bool → Progress
  act conf (calls_host size inside ooms) jmp_env =
      let inner = acts conf inside false in wrap_callback conf size ooms inner jmp_env
  act conf uses_up jmp_env = oom_protected_callback jmp_env

  acts : IsolateConfig → Acts → Bool → Progress
  acts conf nil jmp_env = goes_on jmp_env
  acts conf (cons a l) jmp_env = continue (act conf a jmp_env) (λ e. acts conf l e)

-- from `setjmp` on, with the heap's size at the end
after_call : IsolateConfig → ℕ → Thread → Progress → Protected
unfolding check_host_entry_memory
after_call conf size t (goes_on e) =
    returns (check_host_entry_memory conf size) (record t { jmp_env = false })
after_call conf size t jumps = returns false (record { jmp_env = false; poisoned = true })
after_call conf size t panics = aborts

enter_call : IsolateConfig → ℕ → Acts → Thread → Bool → Protected
unfolding acts after_call
enter_call conf size l t true = aborts
enter_call conf size l t false = after_call conf size t (acts conf l true)

pub protected_js : IsolateConfig → ℕ → Acts → Thread → Protected
unfolding enter_call
protected_js conf size l t = enter_call conf size l t t.jmp_env
