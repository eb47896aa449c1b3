-- ===== src/Runtime/MemoryPool/Tests.antt =====
-- Calls of the allocator on a small budget, and two threads that ask for bytes.
use summer21_rusty_workers.Prelude.{false, ◌≡◌, refl, List, [], ◌∷◌, arith, false}
use summer21_rusty_workers.Runtime.MemoryPool.{
  create, Heap, Block, allocate, grant, take_bytes, take_block, looping, load_round, exchange_round,
  acquire_precheck,
}
use summer21_rusty_workers.Runtime.MemoryPool.Accounting.{
  Accounted, Owns, Exceeds, made, reset_heap, reset-Exceeds,
}
use summer21_rusty_workers.Runtime.MemoryPool.Calls.{Call, allocates, frees, run, run-Accounted}
use summer21_rusty_workers.Runtime.MemoryPool.Contention.{
  System, load, exchange, Reach, here, next, Balanced, Reach-Balanced, exchanged, update,
}

abbrev empty_heap : Heap
empty_heap = record { pool = create 8; blocks = [] }

abbrev block : Block
block = record { address = 1; contents = 0 ∷ 0 ∷ 0 ∷ [] }

abbrev heap : Heap
heap = record { pool = record { remaining_bytes = 5 }; blocks = block ∷ [] }

abbrev calls : List Call
calls = allocates 1 3 ∷ allocates 2 9 ∷ frees 1 3 ∷ []

owned : Owns 1 3 (allocate 2 9 (allocate 1 3 empty_heap).1).1
unfolding allocate grant take_bytes take_block create
owned = record { block = block; others = []; found = refl; size = refl }

run-Accounted_example : Accounted 8 (run empty_heap calls)
run-Accounted_example = run-Accounted 8 calls (omega arith) (tt, (tt, (owned, tt)))

heap-Accounted : Accounted 8 heap
heap-Accounted = record { total = refl; fits = omega arith }

reset-Exceeds_example : Exceeds 2 3 4 8 heap (allocate 3 8 (reset_heap 8 (made 2 4 heap)))
reset-Exceeds_example =
    reset-Exceeds 2 3 4 8 heap heap-Accounted (omega arith) (omega arith) (λ e. cc)

-- acquire_precheck
refuses_nine : acquire_precheck 9 (create 8) ≡ false
unfolding acquire_precheck create
refuses_nine = refl

abbrev threads : System
threads = record {
  pool = record { remaining_bytes = 8 };
  held = 0;
  wants = λ t. 5;
  stands = λ t. looping;
}

threads-Balanced : Balanced 8 threads
threads-Balanced = record { total = refl; seen = λ t c h. cc }

-- Both threads load 8; thread 0 takes its bytes, and the exchange of thread 1 fails.
abbrev loaded_once : System
loaded_once = record threads { stands = update threads.stands 0 (load_round 5 threads.pool) }

abbrev loaded_twice : System
loaded_twice = record loaded_once {
  stands = update loaded_once.stands 1 (load_round 5 loaded_once.pool);
}

abbrev taken_once : System
taken_once = exchanged loaded_twice 0 (exchange_round 5 8 loaded_twice.pool)

abbrev taken_twice : System
taken_twice = exchanged taken_once 1 (exchange_round 5 8 taken_once.pool)

raced : Reach threads taken_twice
unfolding load_round exchange_round
raced =
    next
      (next (next (next here (load threads 0 refl)) (load loaded_once 1 refl))
        (exchange loaded_twice 0 8 refl))
      (exchange taken_once 1 8 refl)

Reach-Balanced_example : Balanced 8 taken_twice
Reach-Balanced_example = Reach-Balanced (omega arith) threads-Balanced raced
