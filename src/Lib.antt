-- ===== src/Lib.antt =====
-- rusty-workers runs JavaScript workers for HTTP requests. A proxy routes a request to an app,
-- takes an instance of the app on one of several runtimes, or creates one, and sends the
-- request to it. A runtime runs the instances in V8 isolates, with limits on memory, CPU time
-- and I/O. Both talk in the types of rusty-workers/src/types.rs. A control plane and a
-- playground API read request bodies with the same loop as the proxy.
--
-- Where the parts are:
-- Types: rusty-workers/src/types.rs.
-- Bytes, BtreeMap: what the code uses of Rust's strings and sorted maps.
-- Body: read_request_body of rusty-workers-cp/src/main.rs and
-- rusty-workers-playground-api/src/main.rs, and the same loop in the proxy.
-- Proxy.State, Proxy.Ready, Proxy.Instance: the state of an app in
-- rusty-workers-proxy/src/sched.rs, its queue of ready instances and `get_instance`.
-- Proxy.Routing: `lookup_submappings`. Proxy.LruCache: what the cache library promises.
-- Proxy.RouteCache: the cache of routes. Proxy.Apps: the cache of apps. Proxy.Clients: the
-- runtimes that are known. Proxy.Dispatch: the retry loop of `handle_request`. Proxy.Request: `handle_request` as a whole.
-- Proxy.Response: the responses that sched.rs and main.rs build.
-- Runtime.MemoryPool: rusty-workers-runtime/src/mm.rs. Runtime.Semaphore: semaphore.rs.
-- Runtime.IsolatePool: the pool of isolate.rs. Runtime.Executor: `Instance::run` of
-- executor.rs. Runtime.Service: `call_service_callback` of executor.rs, with error.rs and
-- crypto.rs. Runtime.Termination: the termination of instances in executor.rs, engine.rs
-- and isolate.rs. Runtime.Monitor: `monitor_task` of runtime.rs. Runtime.Instances: the table
-- of instances of runtime.rs. Runtime.Io.Task: what a call of a script asks for in `handle_task`
-- of io.rs. Runtime.Io.Reply: `handle_task` with its reply. Runtime.Io.Waiter: the budget of
-- calls and their callbacks. Runtime.Io.Processor: `IoProcessor::run` and its tasks. Runtime.Io.System:
-- both together, with the capacity of the channel (`max_io_per_request` + 200), the buffers that tasks
-- ask for and the drops of the scope and the waiter; Runtime.Io.Processor alone has neither the capacity nor these buffers and
-- lets any task in flight end, which is more than the code allows. Runtime.Io.Buffers: remote_buffer.rs.
-- Runtime.Bundle: the unpacking of a bundle in `Instance::new` of executor.rs. Runtime.Protected:
-- `protected_js` and `wrap_callback` there.
-- Fetch: `run_fetch` of rusty-workers-fetchd/src/server.rs.
-- Data.Table, Data.Kv, Data.Call: the key-value data in rusty-workers/src/db.rs. Data.Routes and
-- Data.Apps: its routes, apps and bundles. The MySQL server is an interface: each SQL statement of the code is
-- an operation of it, with what the statement means as a law.
--
-- A text is the list of its bytes, a sorted map the list of its entries in ascending order, and
-- a queue a list with the front first. A clock is an argument that gives the reading for each
-- time that the code looks at it. What other tasks do to shared state between two locks is an
-- argument. Hyper's urls and headers (`handle_request` gets them as they are after their parse and their
-- grouping), the weighted draw, V8, the services behind an RPC and the
-- allocator's addresses are parameters too. `usize` and the counters have 64 bits, `u32` has 32,
-- and both wrap around where the code is compiled for release. No loop needs fuel: those of
-- the code run over a list, a count, or the answers of the outside.
--
-- Not modelled: logging, metrics, RPC transport and argument parsing, the set-up of the
-- JavaScript environment of a worker, which only calls V8, and prometheus/, a copy of another
-- project.
mod Prelude
pub mod Bytes
pub mod BtreeMap
pub mod Types
pub mod Data
pub mod Fetch
pub mod Body
pub mod Runtime
pub mod Proxy
