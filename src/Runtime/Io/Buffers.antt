-- ===== src/Runtime/Io/Buffers.antt =====
-- `RemoteBufferSet` and `RemoteBuffer` of rusty-workers-runtime/src/remote_buffer.rs, whose set `IoWaiter::wait`
-- of io.rs allocates from while it waits, and collects when it has a result. A buffer is known by the
-- address of its `Arc`, and an `ArrayBuffer` by a number.
pub mod Alive
use summer21_rusty_workers.Prelude.{
  ℕ, ◌+◌, Bool, true, false, Option, none, some, List, [], ◌∷◌, ◌==◌, if◌then◌else◌,
}
use summer21_rusty_workers.Prelude.Pick.{pick, count}
use summer21_rusty_workers.Runtime.MemoryPool.{MemoryPool, acquire_precheck, take_bytes}

-- `set` are the strong references, with the buffers that were not taken out yet, and `remote` the
-- addresses of the `RemoteBuffer`s that exist; each holds a weak reference.
pub record Buffers : Type 0 where
  pub set : List (ℕ × Option ℕ)
  pub remote : List ℕ
  pub pool : MemoryPool

unfoldable pub find : ℕ → List (ℕ × Option ℕ) → Option (Option ℕ)
find k [] = none
find k ((address, buf) ∷ set) = let rest = find k set in if address == k then some buf else rest

-- the buffer is taken out of its `Arc`
unfoldable pub take_out : ℕ → List (ℕ × Option ℕ) → List (ℕ × Option ℕ)
take_out k [] = []
take_out k ((address, buf) ∷ set) =
    let rest = take_out k set in
    if address == k then (address, none) ∷ rest else (address, buf) ∷ rest

-- What can happen. A new `Arc` has an address that is not in use, and a new buffer a number.
pub data Event : Type 0 where
  allocates : ℕ → ℕ → ℕ → Event
  drops unwraps : ℕ → Event
  collects : Event

pub data Progress : Type 0 where
  goes_on : Buffers → Progress
  unwrapped : Option ℕ → Buffers → Progress
  cannot : Progress
  panics : Progress

insert_if_free : ℕ → ℕ → Buffers → MemoryPool → Option (Option ℕ) → Progress
insert_if_free address buf b pool (some x) = cannot
insert_if_free address buf b pool none =
    goes_on (record { set = (address, some buf) ∷ b.set; remote = address ∷ b.remote; pool = pool })

allocated : ℕ → ℕ → Buffers → Option MemoryPool → Progress
unfolding insert_if_free
allocated address buf b none = goes_on b
allocated address buf b (some pool) = insert_if_free address buf b pool (find address b.set)

-- RemoteBufferSet::allocate; without the memory there is no buffer
allocate : ℕ → ℕ → ℕ → Buffers → Progress
unfolding allocated
allocate address buf len b = allocated address buf b (take_bytes len b.pool)

drop_remote : Buffers → Option (ℕ × List ℕ) → Progress
drop_remote b none = cannot
drop_remote b (some (address, others)) = goes_on (record b { remote = others })

take_buffer : ℕ → List ℕ → Buffers → Option (Option ℕ) → Progress
take_buffer address others b none = unwrapped none (record b { remote = others })
take_buffer address others b (some none) = panics
take_buffer address others b (some (some buf)) =
    unwrapped (some buf) (record b { set = take_out address b.set; remote = others })

-- RemoteBuffer::unwrap_on_v8_thread
unwrap_remote : Buffers → Option (ℕ × List ℕ) → Progress
unfolding take_buffer
unwrap_remote b none = cannot
unwrap_remote b (some (address, others)) = take_buffer address others b (find address b.set)

-- RemoteBufferSet::gc
unfoldable pub gc : List ℕ → List (ℕ × Option ℕ) → List (ℕ × Option ℕ)
gc remote [] = []
gc remote ((address, buf) ∷ set) =
    let rest = gc remote set in if count address remote == 0 then rest else (address, buf) ∷ rest

pub step : Event → Buffers → Progress
unfolding allocate drop_remote unwrap_remote
step (allocates address buf len) b = allocate address buf len b
step (drops j) b = drop_remote b (pick j b.remote)
step (unwraps j) b = unwrap_remote b (pick j b.remote)
step collects b = goes_on (record b { set = gc b.remote b.set })
