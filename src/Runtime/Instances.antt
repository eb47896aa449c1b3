-- ===== src/Runtime/Instances.antt =====
-- `Runtime` of rusty-workers-runtime/src/runtime.rs: the table of the worker instances, and what fetches,
-- monitors, the statistics worker and the cache policy do to it. A worker is known by the id of its
-- `WorkerHandle`. `lru_time_cache` can drop an entry at any time, by an event of its own here.
pub mod Entries
pub mod Owned
pub mod Watched
pub mod Sound
pub mod Load
mod Tests
use summer21_rusty_workers.Prelude.{
  ℕ, zero, suc, ◌+◌, ◌||◌, Bool, true, false, Option, none, some, List, [], ◌∷◌, map, if◌then◌else◌,
}
use summer21_rusty_workers.Bytes.{Bytes, equals}
use summer21_rusty_workers.Types
use summer21_rusty_workers.Types.{
  ResponseObject, ExecutionError, ExecutionResult, no_such_worker, runtime_throws_exception,
  GenericError, GenericResult, script_init_exception,
}

pub record WorkerState : Type 0 where
  pub memory_bytes : ℕ

abbrev pub Table : Type 0
Table = List (Bytes × WorkerState)

-- LruCache::peek
unfoldable pub peek : Bytes → Table → Option WorkerState
peek k [] = none
peek k ((j, w) ∷ table) = let rest = peek k table in if equals j k then some w else rest

-- LruCache::remove, what it leaves
unfoldable pub remove : Bytes → Table → Table
remove k [] = []
remove k ((j, w) ∷ table) = let rest = remove k table in if equals j k then rest else (j, w) ∷ rest

unfoldable pub is_some : Option WorkerState → Bool
is_some none = false
is_some (some w) = true

unfoldable pub occurs : Bytes → List Bytes → Bool
occurs k [] = false
occurs k (j ∷ l) = let rest = occurs k l in if equals j k then true else rest

-- one occurrence less, if there is one
unfoldable pub drop_one : Bytes → List Bytes → Option (List Bytes)
drop_one k [] = none
drop_one k (j ∷ l) = elim (equals j k) [
  | true ↦ some l
  | false ↦ elim (drop_one k l) [ none ↦ none | some rest ↦ some (j ∷ rest) ]
]

-- Each fetch in flight holds the `Arc` of its worker's handle, as the table does. `dropped` are the
-- handles that were dropped, `monitored` the workers whose `monitor_task` runs, `spawned` the workers that
-- started.
pub record Runtime : Type 0 where
  pub instances : Table
  pub fetching : List Bytes
  pub monitored : List Bytes
  pub dropped : List Bytes
  pub spawned : List Bytes

abbrev pub new : Runtime
new = record { instances = []; fetching = []; monitored = []; dropped = []; spawned = [] }

unfoldable pub is_held : Bytes → Runtime → Bool
unfolding is_some occurs peek
is_held k rt = is_some (peek k rt.instances) || occurs k rt.fetching

-- An `Arc` of the handle goes away; with the last one, the handle is dropped.
unfoldable pub release : Bytes → Runtime → Runtime
release k rt = if is_held k rt then rt else record rt { dropped = k ∷ rt.dropped }

take_out : Bytes → Runtime → Option WorkerState → Runtime
unfolding release
take_out k rt none = rt
take_out k rt (some w) = release k (record rt { instances = remove k rt.instances })

-- `remove` of the table, where nothing keeps the entry that it returns
unfoldable pub evict : Bytes → Runtime → Runtime
unfolding take_out
evict k rt = take_out k rt (peek k rt.instances)

pub list : Runtime → List Bytes
list rt = map (λ e. e.0) rt.instances

unfoldable pub terminate : Bytes → Runtime → Bool × Runtime
unfolding evict is_some
terminate k rt = (is_some (peek k rt.instances), evict k rt)

begin : Bytes → Runtime → Option WorkerState → ExecutionResult (Unit {0}) × Runtime
begin k rt none = (Types.ExecutionResult.err no_such_worker, rt)
begin k rt (some w) = (Types.ExecutionResult.ok tt, record rt { fetching = k ∷ rt.fetching })

-- `fetch` up to `instance.fetch(req)`
unfoldable pub fetch : Bytes → Runtime → ExecutionResult (Unit {0}) × Runtime
unfolding begin
fetch k rt = begin k rt (peek k rt.instances)

-- InstanceHandle::fetch: whether the task can be sent, and what the instance sends back.
unfoldable pub fetch_result :
    Bool → Option (ExecutionResult ResponseObject) → ExecutionResult ResponseObject
fetch_result false response = Types.ExecutionResult.err no_such_worker
fetch_result true (some res) = res
fetch_result true none = Types.ExecutionResult.err runtime_throws_exception

end_of : Bytes → Runtime → Option (List Bytes) → Option Runtime
unfolding release
end_of k rt none = none
end_of k rt (some l) = some (release k (record rt { fetching = l }))

-- the end of `fetch`
unfoldable pub end_fetch : Bytes → Runtime → Option Runtime
unfolding end_of
end_fetch k rt = end_of k rt (drop_one k rt.fetching)

-- What `result_rx` gives `spawn`: the instance's handle, an error, or that the sender was
-- dropped. The text of the error that says so is left out.
pub data Spawned : Type 0 where
  started : Spawned
  refused : GenericError → Spawned
  lost : Spawned

unfoldable pub spawn : Bytes → Spawned → Runtime → GenericResult Bytes × Runtime
spawn k started rt = (
  Types.GenericResult.ok k,
  record rt {
    instances = (k, record { memory_bytes = 0 }) ∷ rt.instances;
    monitored = k ∷ rt.monitored;
    spawned = k ∷ rt.spawned;
  },
)
spawn k (refused e) rt = (Types.GenericResult.err e, rt)
spawn k lost rt = (Types.GenericResult.err (script_init_exception []), rt)

stop_monitor : Bytes → Runtime → Option (List Bytes) → Option Runtime
unfolding evict
stop_monitor k rt none = none
stop_monitor k rt (some l) = some (evict k (record rt { monitored = l }))

-- the two ends of `monitor_task`
unfoldable pub end_monitor : Bytes → Runtime → Option Runtime
unfolding stop_monitor
end_monitor k rt = stop_monitor k rt (drop_one k rt.monitored)

unfoldable pub set_memory : Bytes → ℕ → Table → Table
set_memory k n [] = []
set_memory k n ((j, w) ∷ table) =
    let rest = set_memory k n table in
    (j, if equals j k then record { memory_bytes = n } else w) ∷ rest

-- a round of `statistics_update_worker`
unfoldable pub update : Bytes → ℕ → Runtime → Runtime
unfolding set_memory
update k n rt = record rt { instances = set_memory k n rt.instances }

-- What happens to the runtime, in any order: a worker is spawned, under an id that is new; a fetch
-- begins or ends; a worker is terminated, or the cache policy drops it; a monitor ends; the
-- statistics of a worker arrive.
pub data Event : Type 0 where
  spawns : Bytes → Spawned → Event
  fetches fetch_ends terminates expires monitor_ends : Bytes → Event
  reports : Bytes → ℕ → Event

unless_used : Bool → Runtime → Option Runtime
unless_used true rt = none
unless_used false rt = some rt

-- `none`: the event cannot happen.
pub step : Event → Runtime → Option Runtime
unfolding unless_used
step (spawns k result) rt = unless_used (occurs k rt.spawned) (spawn k result rt).1
step (fetches k) rt = some (fetch k rt).1
step (fetch_ends k) rt = end_fetch k rt
step (terminates k) rt = some (terminate k rt).1
step (expires k) rt = some (evict k rt)
step (monitor_ends k) rt = end_monitor k rt
step (reports k n) rt = some (update k n rt)

and_then : Option Runtime → (Runtime → Option Runtime) → Option Runtime
and_then none f = none
and_then (some rt) f = f rt

pub steps : List Event → Runtime → Option Runtime
unfolding and_then
steps [] rt = some rt
steps (e ∷ es) rt = and_then (step e rt) (λ q. steps es q)
