-- ===== src/Runtime/Io/System/Rest.antt =====
-- When the calls of an instance come to rest.
use summer21_rusty_workers.Prelude.{
  Option-cases, ℕ, ◌≤◌, ◌<◌, ◌≡◌, refl, ap, inl, inr, Bool, true, false, not, none, some, List, [],
  arith, length,
}
use summer21_rusty_workers.Prelude.Pick.{count, pick}
use summer21_rusty_workers.Runtime.Io.Processor
use summer21_rusty_workers.Runtime.Io.Processor.Drained.{
  is_internal, rests-in_flight, rests-taken, rests-task, rests-permit,
}
use summer21_rusty_workers.Runtime.Io.Processor.Conserved.{count_taken}
use summer21_rusty_workers.Runtime.Io.System.Cannot.{
  serve-rest, receive-rest, unblock-rest, work-rest, not_asking, empty_slab, finish-rest,
}
use summer21_rusty_workers.Runtime.Io.System.Slab.{Tracked}
use summer21_rusty_workers.Runtime.Io.System.Tracked.{steps-Tracked}
use summer21_rusty_workers.Runtime.Io.System.{
  goes_on, System, new, Event, issues, unblocks, waits, serves, drops_scope, drops_waiter, works,
  asks, cannot, may_work, step, steps,
}

-- What happens without a new call, a new wish for a buffer and a drop.
abbrev pub is_progress : Event → Bool
is_progress (issues count_budget index cb) = false
is_progress unblocks = true
is_progress waits = true
is_progress (serves granted) = true
is_progress drops_scope = false
is_progress drops_waiter = false
is_progress (works e) = is_internal e
is_progress (asks j) = false

-- Nothing of that can happen.
abbrev pub Rests : ℕ → System → Type 0
Rests limit s = (e : Event) → is_progress e ≡ true → step limit e s ≡ cannot

-- The three ways to rest: no call is left; `wait` returned `None` after the loop ended; or the instance waits in `issue` for room in the channel while the loop waits
-- for a permit and every task in flight waits for a buffer.
pub data Rested (limit : ℕ) (s : System) : Type 0 where
  idle :
      s.processor.stopped ≡ false
      → s.processor.in_flight ≡ []
      → s.waiter.inflight ≡ []
      → Rested limit s
  over :
      s.processor.stopped ≡ true
      → s.processor.in_flight ≡ []
      → s.processor.results ≡ []
      → s.ended ≡ true
      → Rested limit s
  stuck :
      (index i : ℕ)
      → s.blocked ≡ some index
      → s.processor.stopped ≡ false
      → s.capacity ≤ length s.processor.task
      → s.processor.taken ≡ some i
      → limit ≤ length s.processor.in_flight
      → ((j k : ℕ) (others : List ℕ)
          → pick j s.processor.in_flight ≡ some (k, others)
          → 0 < count k s.creations)
      → Rested limit s

module _ (limit : ℕ) (s : System) (positive : 0 < limit) (t : Tracked s)
    (rests : Rests limit s) where
  unblocked-Rested : s.processor.closed ≡ false → s.blocked ≡ none → Rested limit s
  unfolding step may_work
  unblocked-Rested open_ free =
      let p = s.processor in
      let asked =
        serve-rest s s.blocked p.closed s.creations free open_ (rests (serves true) refl) in
      let flight = rests-in_flight limit p p.in_flight refl (
        work-rest limit s (Processor.finishes 0) (ap not (not_asking s _ asked))
          (rests (works (Processor.finishes 0)) refl)) in
      let taken =
        rests-taken limit p p.taken refl positive flight (
          work-rest limit s Processor.gets_permit refl
            (rests (works Processor.gets_permit) refl)) in
      let (empty, end) =
        receive-rest s s.blocked p.closed p.results free open_ asked flight (rests waits refl) in
      elim end [
        | inl y ↦ over (t.over y) flight empty y
        | inr n ↦
            let task =
              rests-task limit p p.task refl taken n
                (work-rest limit s Processor.takes refl (rests (works Processor.takes) refl)) in
            idle n flight (
              empty_slab s.waiter.inflight (λ i. omega (
                arith,
                t.slab i,
                ap (count_taken i) free,
                ap (count_taken i) taken,
                ap (count i) flight,
                ap (count i) empty,
                ap (count i) task,
                ap (count i) (t.ends n),
              )))
      ]

  blocked-Rested : (index : ℕ) → s.blocked ≡ some index → Rested limit s
  unfolding step may_work
  blocked-Rested index waiting =
      let p = s.processor in
      let (runs, full) = unblock-rest s s.blocked p.stopped index waiting (rests unblocks refl) in
      elim (Option-cases p.taken) [
        | inl e ↦ absurd (
            let task =
              rests-task limit p p.task refl e runs
                (work-rest limit s Processor.takes refl (rests (works Processor.takes) refl)) in
            omega (arith, ap length task, full, t.room))
        | inr (i, e) ↦
            stuck index i waiting runs full e
              (rests-permit limit p p.taken i refl e (
                work-rest limit s Processor.gets_permit refl
                  (rests (works Processor.gets_permit) refl)))
              (λ j k others f.
                finish-rest limit s j k others f (rests (works (Processor.finishes j)) refl))
      ]

-- Let calls, work, waiting, wishes for buffers and drops interleave in any order, from a new request
-- whose limit is not 0, up to a state in which nothing can happen without a new call, a new wish or a
-- drop, while the instance has its waiter. Then either the loop runs, no call is in flight and no
-- callback is left in the slab; or the loop has ended, no call is in flight, no result is left and
-- `wait` has returned `None`; or it is a deadlock: the instance waits in `issue` for room in a full
-- channel, the loop holds a call that waits for a permit, and at least as many calls as the limit are
-- in flight, each waiting for a buffer that only `wait` could make.
pub steps-Rested :
    (limit max_io_per_request : ℕ) (es : List Event) (s : System)
    → 0 < limit
    → steps limit es (new max_io_per_request) ≡ goes_on s
    → s.processor.closed ≡ false
    → Rests limit s
    → Rested limit s
steps-Rested limit n es s positive e open_ rests = elim (Option-cases s.blocked) [
  | inl free ↦ unblocked-Rested limit s positive ((steps-Tracked limit n es).1 s e) rests open_ free
  | inr (index, waiting) ↦
      blocked-Rested limit s positive ((steps-Tracked limit n es).1 s e) rests index waiting
]
