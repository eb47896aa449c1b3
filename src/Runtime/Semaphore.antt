-- ===== src/Runtime/Semaphore.antt =====
-- rusty-workers-runtime/src/semaphore.rs: a semaphore as a channel that holds one message for each free
-- permit.
pub mod Permits
use summer21_rusty_workers.Prelude.{
  ℕ, zero, suc, ◌+◌, Bool, true, false, Option, none, some, List, [], ◌∷◌,
}

-- the number of messages in the channel
pub record Semaphore : Type 0 where
  pub free : ℕ

send : Semaphore → Semaphore
send s = record { free = suc s.free }

send_all : ℕ → Semaphore → Semaphore
unfolding send
send_all zero s = s
send_all (suc n) s = send_all n (send s)

-- Semaphore::new
pub new : ℕ → Semaphore
unfolding send_all
new n = send_all n (record { free = 0 })

receive : ℕ → Option Semaphore
receive zero = none
receive (suc n) = some (record { free = n })

-- acquire_timeout and acquire_owned_timeout: `none` when the wait times out, which happens only while
-- the channel is empty
pub acquire_timeout : Semaphore → Option Semaphore
unfolding receive
acquire_timeout s = receive s.free

-- Drop for Permit and OwnedPermit
pub drop_permit : Semaphore → Semaphore
unfolding send
drop_permit s = send s
