-- ===== src/Runtime/MemoryPool.antt =====
-- rusty-workers-runtime/src/mm.rs: the budget of bytes for array buffers, and the allocator on top of
-- it that V8 calls. `usize` has 64 bits. The memory that the allocator hands out is a list of blocks
-- with their addresses; a new block's address is an argument.
pub mod Accounting
pub mod Reallocation
pub mod Calls
pub mod Contention
mod Tests
use summer21_rusty_workers.Prelude.{
  ℕ, zero, suc, ◌+◌, ◌-◌, ◌%◌, ◌^◌, min, Bool, true, false, Option, none, some, List, [], ◌∷◌, ◌++◌,
  length, ltb, leb, ◌==◌, not, if◌then◌else◌,
}
use summer21_rusty_workers.Bytes.{Bytes}

pub record MemoryPool : Type 0 where
  pub remaining_bytes : ℕ

-- MemoryPool::new
pub create : ℕ → MemoryPool
create n = record { remaining_bytes = n }

unfoldable pub acquire_precheck : ℕ → MemoryPool → Bool
acquire_precheck n pool = not (ltb pool.remaining_bytes n)

pub reset : ℕ → MemoryPool → MemoryPool
reset n pool = record { remaining_bytes = n }

-- fetch_add wraps around
pub release_bytes : ℕ → MemoryPool → MemoryPool
release_bytes n pool = record { remaining_bytes = (pool.remaining_bytes + n) % 2 ^ 64 }

-- Where a thread stands in the loop of `acquire_bytes`.
pub data Acquiring : Type 0 where
  looping : Acquiring
  loaded : ℕ → Acquiring
  returned : Bool → Acquiring

-- the load of a round, and the test behind it
pub load_round : ℕ → MemoryPool → Acquiring
load_round n pool =
    let current = pool.remaining_bytes in if ltb current n then returned false else loaded current

-- the `compare_exchange` of a round, for the value that was loaded
pub exchange_round : ℕ → ℕ → MemoryPool → Acquiring × MemoryPool
exchange_round n current pool =
    if pool.remaining_bytes == current
    then (returned true, record { remaining_bytes = current - n })
    else (looping, pool)

-- `acquire_bytes` where no other thread allocates, as the allocator assumes
unfoldable pub take_bytes : ℕ → MemoryPool → Option MemoryPool
take_bytes n pool =
    if ltb pool.remaining_bytes n
    then none
    else some (record { remaining_bytes = pool.remaining_bytes - n })

abbrev pub replicate : ℕ → ℕ → Bytes
replicate zero b = []
replicate (suc n) b = b ∷ replicate n b

abbrev pub take : ℕ → Bytes → Bytes
take zero xs = []
take (suc n) [] = []
take (suc n) (x ∷ xs) = x ∷ take n xs

pub record Block : Type 0 where
  pub address : ℕ
  pub contents : Bytes

pub record Heap : Type 0 where
  pub pool : MemoryPool
  pub blocks : List Block

-- Box::from_raw of a pointer
pub take_block : ℕ → List Block → Option (Block × List Block)
take_block a [] = none
take_block a (b ∷ bs) =
    let rest = take_block a bs in
    if b.address == a
    then some (b, bs)
    else elim rest [ none ↦ none | some (x, others) ↦ some (x, b ∷ others) ]

-- The end of both allocating functions: the null pointer where the budget is used up.
grant : ℕ → Bytes → Heap → Option MemoryPool → Option ℕ × Heap
grant address contents h none = (none, h)
grant address contents h (some pool) =
    let block : Block = record { address = address; contents = contents } in
    (some address, record { pool = pool; blocks = block ∷ h.blocks })

-- The content of `vec![0u8; n]` is n zeros.
pub allocate : ℕ → ℕ → Heap → Option ℕ × Heap
unfolding grant take_bytes
allocate address n h = grant address (replicate n 0) h (take_bytes n h.pool)

-- The memory is not initialised: its content is an argument.
pub allocate_uninitialized : ℕ → Bytes → Heap → Option ℕ × Heap
unfolding grant take_bytes
allocate_uninitialized address garbage h =
    grant address garbage h (take_bytes (length garbage) h.pool)

-- A pointer that is no block is undefined behaviour; the counter is changed before it is used.
free_block : ℕ → Heap → Option (Block × List Block) → Heap
free_block n h none = record h { pool = release_bytes n h.pool }
free_block n h (some (b, others)) = record { pool = release_bytes n h.pool; blocks = others }

pub free : ℕ → ℕ → Heap → Heap
unfolding free_block release_bytes
free address n h = free_block n h (take_block address h.blocks)

-- the test at the head of `reallocate`
adjust : ℕ → ℕ → MemoryPool → Option MemoryPool
unfolding release_bytes take_bytes
adjust oldlen newlen pool =
    if leb newlen oldlen
    then some (release_bytes (oldlen - newlen) pool)
    else take_bytes (newlen - oldlen) pool

-- `extend_from_slice` of what both have room for, then `resize` with zeros
pub resized : ℕ → ℕ → Bytes → Bytes
resized oldlen newlen old = take (min oldlen newlen) old ++ replicate (newlen - min oldlen newlen) 0

move_block : ℕ → ℕ → ℕ → Heap → MemoryPool → Option (Block × List Block) → Option ℕ × Heap
unfolding resized
move_block address oldlen newlen h pool none = (none, record h { pool = pool })
move_block address oldlen newlen h pool (some (b, others)) =
    let block : Block = record { address = address; contents = resized oldlen newlen b.contents } in
    (some address, record { pool = pool; blocks = block ∷ others })

reallocated : ℕ → ℕ → ℕ → ℕ → Heap → Option MemoryPool → Option ℕ × Heap
unfolding move_block
reallocated address prev oldlen newlen h none = (none, h)
reallocated address prev oldlen newlen h (some pool) =
    move_block address oldlen newlen h pool (take_block prev h.blocks)

-- The new block's address is the first argument.
pub reallocate : ℕ → ℕ → ℕ → ℕ → Heap → Option ℕ × Heap
unfolding reallocated adjust
reallocate address prev oldlen newlen h =
    reallocated address prev oldlen newlen h (adjust oldlen newlen h.pool)
