-- ===== src/Runtime/Instances/Sound.antt =====
-- What holds of the runtime in every state that it can reach.
use summer21_rusty_workers.Prelude.{List, ◌≡◌, some}
use summer21_rusty_workers.Runtime.Instances.{Runtime, new, Event, steps}
use summer21_rusty_workers.Runtime.Instances.Owned.{Owned, steps-Owned}
use summer21_rusty_workers.Runtime.Instances.Watched.{Watched, steps-Watched}

pub record Sound (rt : Runtime) : Type 0 where
  owned : Owned rt
  watched : Watched rt

-- However spawns, fetches, terminations, expiries, monitors and statistics interleave: the number of times
-- that a worker's handle was dropped, and one more while the table or a fetch in flight holds it, is
-- the number of times that it was spawned; and each worker of the table has a monitor task that
-- still runs.
pub steps-Sound : (es : List Event) (rt : Runtime) → steps es new ≡ some rt → Sound rt
steps-Sound es rt h = record { owned = steps-Owned es rt h; watched = steps-Watched es rt h }
