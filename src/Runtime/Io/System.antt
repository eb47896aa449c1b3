-- ===== src/Runtime/Io/System.antt =====
-- The `IoWaiter` and the `IoProcessor` of a request in rusty-workers-runtime/src/io.rs together: the
-- thread of the instance issues calls and waits for results, and the processor and its tasks work on
-- them. The channel of calls has a capacity, and a task may ask the instance for a buffer
-- (`BackToExecutorItem::BufferCreation`), which only `wait` answers. The items of the two kinds in the
-- channel of results are kept apart here: `wait` takes the first of either kind. A task that waits for
-- no buffer can end: the services that it waits for answer.
pub mod Slab
pub mod Tracked
pub mod Cannot
pub mod Rest
mod Tests
use summer21_rusty_workers.Prelude.{
  ℕ, ◌+◌, Bool, true, false, not, Option, none, some, List, [], ◌∷◌, ◌++◌, ◌==◌, ltb, length,
  if◌then◌else◌, ◌&&◌,
}
use summer21_rusty_workers.Prelude.Pick.{pick, count}
use summer21_rusty_workers.Types
use summer21_rusty_workers.Types.{GenericResult}
use summer21_rusty_workers.Runtime.Io.Waiter
use summer21_rusty_workers.Runtime.Io.Waiter.{IoWaiter}
use summer21_rusty_workers.Runtime.Io.Processor
use summer21_rusty_workers.Runtime.Io.Processor.{IoProcessor}
use summer21_rusty_workers.Runtime.Io.Processor.Drained.{is_internal}

-- `blocked` is the index whose `blocking_send` waits for room, `creations` are the indices of the tasks
-- that asked for a buffer and were not answered, `refused` those of tasks that did not get one, and `ended` says that a `wait` returned `None`.
pub record System : Type 0 where
  pub waiter : IoWaiter
  pub processor : IoProcessor
  pub capacity : ℕ
  pub blocked : Option ℕ
  pub creations : List ℕ
  pub refused : List ℕ
  pub ended : Bool

-- IoWaiter::new, with `max_io_per_request`
abbrev pub new : ℕ → System
new max_io_per_request = record {
  waiter = Waiter.new max_io_per_request;
  processor = Processor.new;
  capacity = max_io_per_request + 200;
  blocked = none;
  creations = [];
  refused = [];
  ended = false;
}

-- The instance issues a call, with the index of the slab and its callback, or its blocked call goes on;
-- it waits, and gets a result or answers a task that wants a buffer, which is granted or refused; the processor or a task does
-- something; task number j of those in flight asks for a buffer; the scope or the waiter is dropped.
pub data Event : Type 0 where
  issues : Bool → ℕ → ℕ → Event
  unblocks waits drops_scope drops_waiter : Event
  serves : Bool → Event
  works : Processor.Event → Event
  asks : ℕ → Event

pub data Progress : Type 0 where
  goes_on : System → Progress
  cannot : Progress
  panics : Progress

abbrev pub keys : List (ℕ × ℕ) → List ℕ
keys [] = []
keys ((index, cb) ∷ l) = index ∷ keys l

-- The end of `issue`, where the channel takes the call at once or is closed.
after_issue : ℕ → System → GenericResult (Unit {0}) × IoWaiter → Progress
after_issue index s (Types.GenericResult.ok u, w) = goes_on (record s {
  waiter = w;
  processor = record s.processor { task = s.processor.task ++ index ∷ [] };
})
after_issue index s (Types.GenericResult.err e, w) = goes_on (record s { waiter = w })

-- The channel is full: the callback is in the slab, and `blocking_send` waits.
block : ℕ → System → GenericResult (Unit {0}) × IoWaiter → Progress
block index s (Types.GenericResult.ok u, w) =
    goes_on (record s { waiter = w; blocked = some index })
block index s (Types.GenericResult.err e, w) = goes_on (record s { waiter = w })

has_room : System → Bool
has_room s = ltb (length s.processor.task) s.capacity

-- The channel is closed when the loop of the processor has ended.
send : Bool → ℕ → ℕ → System → Bool → Progress
unfolding after_issue block has_room
send count_budget index cb s true =
    after_issue index s (Waiter.issue count_budget index cb false s.waiter)
send count_budget index cb s false =
    if has_room s
    then after_issue index s (Waiter.issue count_budget index cb true s.waiter)
    else block index s (Waiter.issue count_budget index cb true s.waiter)

-- The thread of the instance runs while it is not blocked and has its waiter; the slab gives an index
-- that is not in use.
pub issue : Bool → ℕ → ℕ → System → Option ℕ → Bool → Progress
unfolding send
issue count_budget index cb s none false =
    if count index (keys s.waiter.inflight) == 0
    then send count_budget index cb s s.processor.stopped
    else cannot
issue count_budget index cb s _ _ = cannot

-- `self.inflight.remove(index)` of the send that failed
withdraw : System → Option IoWaiter → Progress
withdraw s none = panics
withdraw s (some w) = goes_on (record s { waiter = w; blocked = none })

-- `blocking_send` fails when the channel is closed, and succeeds when there is room.
pub unblock : System → Option ℕ → Bool → Progress
unfolding withdraw has_room
unblock s none stopped = cannot
unblock s (some index) true = withdraw s (Waiter.withdraw index s.waiter)
unblock s (some index) false =
    if has_room s
    then goes_on (record s {
      processor = record s.processor { task = s.processor.task ++ index ∷ [] };
      blocked = none;
    })
    else cannot

abbrev without : ℕ → List ℕ → List ℕ
without index [] = []
without index (x ∷ l) = if x == index then without index l else x ∷ without index l

after_wait : ℕ → List ℕ → System → Option (ℕ × IoWaiter) → Progress
after_wait index rest s none = panics
after_wait index rest s (some (cb, w)) = goes_on (record s {
  waiter = w;
  processor = record s.processor { results = rest };
  refused = without index s.refused;
})

-- `recv` fails when nothing is in the channel and the loop and all tasks have dropped their senders.
see_end : System → List ℕ → List ℕ → Bool → Progress
see_end s [] [] true = goes_on (record s { ended = true })
see_end s _ _ _ = cannot

-- `wait`, where it takes a result or fails; what a task asked for stands in the channel before its
-- result.
pub receive : System → Option ℕ → Bool → List ℕ → Progress
unfolding after_wait see_end
receive s none false (index ∷ rest) =
    if count index s.creations == 0
    then after_wait index rest s (Waiter.finish index s.waiter)
    else cannot
receive s none false [] =
    if s.ended then cannot else see_end s s.creations s.processor.in_flight s.processor.stopped
receive s _ _ _ = cannot

-- `wait`, where it takes a `BufferCreation`; a task that is gone does not get the buffer.
pub serve : Bool → System → Option ℕ → Bool → List ℕ → Progress
serve granted s none false (index ∷ rest) =
    goes_on
      (record s { creations = rest; refused = if granted then s.refused else index ∷ s.refused })
serve granted s _ _ _ = cannot

-- `allocate_arraybuffer` up to its `rx.await`, which a scan of keys calls for all of them at once; the
-- send fails when the waiter is dropped.
ask : System → Bool → Option (ℕ × List ℕ) → Progress
ask s false (some (index, others)) = goes_on (record s { creations = s.creations ++ index ∷ [] })
ask s _ _ = cannot

after_work : System → Option IoProcessor → Progress
after_work s none = cannot
after_work s (some p) = goes_on (record s { processor = p })

-- A task that waits for a buffer does not end with a result, unless it was refused one; but it can see
-- the kill.
pub is_asking : System → Option (ℕ × List ℕ) → Bool
is_asking s none = false
is_asking s (some (index, others)) =
    if count index s.creations == 0 then false else (count index s.refused == 0)

pub may_work : Processor.Event → System → Bool
unfolding is_asking
may_work (Processor.finishes j) s = not (is_asking s (pick j s.processor.in_flight))
may_work e s = is_internal e

-- The receiver of results is dropped with the waiter, and so are the channels that tasks wait on.
drop_waiter : System → Option ℕ → Progress
drop_waiter s none =
    goes_on (record s { processor = record s.processor { closed = true }; creations = [] })
drop_waiter s (some index) = cannot

pub step : ℕ → Event → System → Progress
unfolding issue unblock receive serve ask after_work may_work drop_waiter
step limit (issues count_budget index cb) s =
    issue count_budget index cb s s.blocked s.processor.closed
step limit unblocks s = unblock s s.blocked s.processor.stopped
step limit waits s = receive s s.blocked s.processor.closed s.processor.results
step limit (serves granted) s = serve granted s s.blocked s.processor.closed s.creations
step limit drops_scope s = after_work s (Processor.step limit Processor.drops_scope s.processor)
step limit drops_waiter s = drop_waiter s s.blocked
step limit (asks j) s = ask s s.processor.closed (pick j s.processor.in_flight)
step limit (works e) s =
    if may_work e s then after_work s (Processor.step limit e s.processor) else cannot

continue : Progress → (System → Progress) → Progress
continue (goes_on s) f = f s
continue cannot f = cannot
continue panics f = panics

pub steps : ℕ → List Event → System → Progress
unfolding continue
steps limit [] s = goes_on s
steps limit (e ∷ es) s = continue (step limit e s) (λ q. steps limit es q)
