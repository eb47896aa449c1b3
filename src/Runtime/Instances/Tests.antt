-- ===== src/Runtime/Instances/Tests.antt =====
-- A worker that is terminated while a fetch is in flight.
use summer21_rusty_workers.Prelude.{◌≡◌, refl, List, [], ◌∷◌, some}
use summer21_rusty_workers.Bytes.{Bytes, equals}
use summer21_rusty_workers.Runtime.Instances.{
  peek, remove, is_some, occurs, drop_one, set_memory, Runtime, is_held, release, evict, terminate,
  fetch, end_fetch, started, spawn, end_monitor, update, Event, spawns, fetches, fetch_ends,
  terminates, monitor_ends, reports, step, steps,
}
use summer21_rusty_workers.Runtime.Instances.Sound.{Sound, steps-Sound}

abbrev first : Bytes
first = 1 ∷ []

abbrev second : Bytes
second = 2 ∷ []

abbrev events : List Event
events =
    spawns first started
    ∷ spawns second started
    ∷ fetches first
    ∷ reports second 7
    ∷ terminates first
    ∷ []

-- The first worker is out of the table, and its handle is still held by the fetch.
abbrev between : Runtime
between = record {
  instances = (second, record { memory_bytes = 7 }) ∷ [];
  fetching = first ∷ [];
  monitored = second ∷ first ∷ [];
  dropped = [];
  spawned = second ∷ first ∷ [];
}

abbrev ends : List Event
ends = fetch_ends first ∷ monitor_ends first ∷ []

abbrev after : Runtime
after = record between { fetching = []; monitored = second ∷ []; dropped = first ∷ [] }

drops_late : steps ends between ≡ some after
unfolding steps step fetch terminate evict end_fetch end_monitor spawn update peek remove occurs
    is_some drop_one set_memory is_held release equals
drops_late = refl

steps-Sound_example : Sound between
unfolding steps step fetch terminate evict end_fetch end_monitor spawn update peek remove occurs
    is_some drop_one set_memory is_held release equals
steps-Sound_example = steps-Sound events between refl
