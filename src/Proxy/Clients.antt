-- ===== src/Proxy/Clients.antt =====
-- The known runtimes of the scheduler: `query_runtimes` and `discover_runtimes` of
-- rusty-workers-proxy/src/sched.rs. What a runtime answers is an argument.
pub mod Known
use summer21_rusty_workers.Prelude.{ℕ, Option, none, some, List, [], ◌∷◌, map}
use summer21_rusty_workers.Bytes.{Bytes}
use summer21_rusty_workers.BtreeMap
use summer21_rusty_workers.BtreeMap.{BtreeMap}
use summer21_rusty_workers.Types
use summer21_rusty_workers.Types.{GenericResult}
use summer21_rusty_workers.Proxy.State.{RtState}

-- The answer of `load`; `none` is an error of the transport.
abbrev pub Reply : Type 0
Reply = Option (GenericResult ℕ)

-- one round of the `for` loop of `query_runtimes`, in front of what the others give
pub answered :
    Bytes → RtState → Reply → BtreeMap RtState × List Bytes → BtreeMap RtState × List Bytes
answered rtid rt (some (Types.GenericResult.ok load)) (clients, to_drop) =
    ((rtid, record rt { load = load }) ∷ clients, to_drop)
answered rtid rt (some (Types.GenericResult.err e)) (clients, to_drop) =
    ((rtid, rt) ∷ clients, rtid ∷ to_drop)
answered rtid rt none (clients, to_drop) = ((rtid, rt) ∷ clients, rtid ∷ to_drop)

-- the `for` loop: the clients with their new loads, and `to_drop`
pub query_all : (RtState → Reply) → BtreeMap RtState → BtreeMap RtState × List Bytes
unfolding answered
query_all load [] = ([], [])
query_all load ((rtid, rt) ∷ clients) = answered rtid rt (load rt) (query_all load clients)

pub remove_all : List Bytes → BtreeMap RtState → BtreeMap RtState
remove_all [] clients = clients
remove_all (rtid ∷ to_drop) clients = remove_all to_drop (BtreeMap.remove rtid clients)

-- What others do while no lock is held is `meanwhile`.
pub drop_silent :
    (BtreeMap RtState → BtreeMap RtState) → BtreeMap RtState × List Bytes → BtreeMap RtState
unfolding remove_all
drop_silent meanwhile (clients, []) = meanwhile clients
drop_silent meanwhile (clients, rtid ∷ to_drop) = remove_all (rtid ∷ to_drop) (meanwhile clients)

-- Scheduler::query_runtimes
pub query_runtimes :
    (BtreeMap RtState → BtreeMap RtState) → (RtState → Reply) → BtreeMap RtState → BtreeMap RtState
unfolding query_all drop_silent
query_runtimes meanwhile load clients = drop_silent meanwhile (query_all load clients)

-- connect_noretry and then `id`
pub greet : (Bytes → Option ℕ) → (ℕ → Option Bytes) → Bytes → Option (Bytes × ℕ)
greet connect id addr = elim (connect addr) [
  | none ↦ none
  | some client ↦ elim (id client) [ none ↦ none | some rtid ↦ some (rtid, client) ]
]

-- `if !clients.contains_key(&id)`, for what `get` finds
pub add_unknown : Bytes → ℕ → Option RtState → BtreeMap RtState → BtreeMap RtState
add_unknown rtid client (some rt) clients = clients
add_unknown rtid client none clients =
    BtreeMap.insert rtid (record { client = client; load = 0 }) clients

-- the `for` loop of `discover_runtimes`
pub add_all : List (Option (Bytes × ℕ)) → BtreeMap RtState → BtreeMap RtState
unfolding add_unknown
add_all [] clients = clients
add_all (none ∷ new_clients) clients = add_all new_clients clients
add_all (some (rtid, client) ∷ new_clients) clients =
    add_all new_clients (add_unknown rtid client (BtreeMap.get rtid clients) clients)

-- Scheduler::discover_runtimes
pub discover_runtimes :
    (Bytes → Option ℕ) → (ℕ → Option Bytes) → List Bytes → BtreeMap RtState → BtreeMap RtState
unfolding greet add_all
discover_runtimes connect id runtime_cluster clients =
    add_all (map (greet connect id) runtime_cluster) clients
