-- ===== src/Runtime/Termination/Reasons.antt =====
-- Which instance a termination hits, and which reason its client sees.
use summer21_rusty_workers.Prelude.{◌+◌, ◌≤◌, ◌<◌, ◌≡◌, ◌≢◌, refl, true, some, List, [], ◌∷◌, arith}
use summer21_rusty_workers.Bytes.{Bytes}
use summer21_rusty_workers.Types
use summer21_rusty_workers.Types.{ExecutionError, runtime_throws_exception, time_limit_exceeded}
use summer21_rusty_workers.Runtime.Termination.{
  TerminationReason, unknown, time_limit, cache_policy, Isolate, InstanceHandle, new_instance,
  do_remote_termination, recycle, checked, check_on_task, first_reason,
}

-- What can happen to an isolate.
pub data Action : Type 0 where
  creates : Action
  terminates : InstanceHandle → TerminationReason → Action
  recycles : Action

pub act : Isolate → Action → Isolate
act iso creates = (new_instance iso).1
act iso (terminates h r) = do_remote_termination h r iso
act iso recycles = recycle iso

pub acts : Isolate → List Action → Isolate
unfolding act
acts iso [] = iso
acts iso (a ∷ as') = acts (act iso a) as'

act-generation : (iso : Isolate) (a : Action) → iso.generation ≤ (act iso a).generation
unfolding act new_instance do_remote_termination recycle
act-generation iso creates = omega arith
act-generation iso (terminates h r) = ground arith
act-generation iso recycles = omega arith

recycle-generation : (iso : Isolate) → (recycle iso).generation ≡ iso.generation + 1
unfolding recycle
recycle-generation iso = refl

acts-generation : (iso : Isolate) (l : List Action) → iso.generation ≤ (acts iso l).generation
unfolding acts
acts-generation iso [] = omega arith
acts-generation iso (a ∷ l) = omega (arith, act-generation iso a, acts-generation (act iso a) l)

stale :
    (h : InstanceHandle) (r : TerminationReason) (iso : Isolate)
    → h.creation_generation < iso.generation
    → do_remote_termination h r iso ≡ iso
unfolding do_remote_termination
stale h r iso lt = ground arith

-- Once the isolate has been recycled, the handle of an earlier instance never terminates what runs
-- there, whatever happened before and after.
pub termination_of_recycled :
    (iso : Isolate) (before after : List Action) (reason : TerminationReason)
    → let (h, started) = new_instance iso in
      let later = acts (recycle (acts started before)) after in
      do_remote_termination h reason later ≡ later
unfolding new_instance
termination_of_recycled iso before after reason =
    let started : Isolate = record iso { termination_reason = some unknown } in
    stale (record { creation_generation = iso.generation }) reason _
      (omega (
        arith,
        acts-generation started before,
        acts-generation (recycle (acts started before)) after,
        recycle-generation (acts started before),
      ))

-- Terminations of the running instance, none of which comes after a recycling.
pub terminations : InstanceHandle → List TerminationReason → Isolate → Isolate
terminations h [] iso = iso
terminations h (r ∷ rs) iso = terminations h rs (do_remote_termination h r iso)

abbrev pub seen_error : TerminationReason → ExecutionError
seen_error time_limit = time_limit_exceeded
seen_error _ = runtime_throws_exception

first_reason_stays : (r x : TerminationReason) → r ≢ unknown → first_reason (some r) x ≡ some r
unfolding first_reason
first_reason_stays unknown x n = absurd (n refl)
first_reason_stays time_limit x n = refl
first_reason_stays cache_policy x n = refl

reason_stays :
    (h : InstanceHandle) (r x : TerminationReason) (iso : Isolate)
    → r ≢ unknown
    → iso.termination_reason ≡ some r
    → (do_remote_termination h x iso).termination_reason ≡ some r
unfolding do_remote_termination
reason_stays h r x iso n e = ground (arith, first_reason_stays r x n)

terminating_stays :
    (h : InstanceHandle) (x : TerminationReason) (iso : Isolate)
    → iso.terminating ≡ true
    → (do_remote_termination h x iso).terminating ≡ true
unfolding do_remote_termination
terminating_stays h x iso e = ground arith

terminations-terminating :
    (h : InstanceHandle) (rs : List TerminationReason) (iso : Isolate)
    → iso.terminating ≡ true
    → (terminations h rs iso).terminating ≡ true
unfolding terminations
terminations-terminating h [] iso e = e
terminations-terminating h (x ∷ rs) iso e =
    terminations-terminating h rs (do_remote_termination h x iso) (terminating_stays h x iso e)

check-reason :
    (iso : Isolate) (r : TerminationReason) (message : Bytes)
    → iso.termination_reason ≡ some r
    → check_on_task (some message) true iso ≡ checked (Types.ExecutionResult.err (seen_error r))
unfolding check_on_task
check-reason iso unknown message e = rw e
check-reason iso time_limit message e = rw e
check-reason iso cache_policy message e = rw e

terminations-first :
    (h : InstanceHandle) (r : TerminationReason) (rs : List TerminationReason) (iso : Isolate)
    → r ≢ unknown
    → iso.termination_reason ≡ some r
    → (terminations h rs iso).termination_reason ≡ some r
unfolding terminations
terminations-first h r [] iso n e = e
terminations-first h r (x ∷ rs) iso n e =
    terminations-first h r rs (do_remote_termination h x iso) n (reason_stays h r x iso n e)

-- However often a running instance is terminated, V8 is told, and the client sees the first reason:
-- the time limit, or an exception of the runtime for the cache policy.
pub first_reason_wins :
    (iso : Isolate) (r : TerminationReason) (rs : List TerminationReason) (message : Bytes)
    → r ≢ unknown
    → let (h, started) = new_instance iso in
      let ended = terminations h (r ∷ rs) started in
      (ended.terminating ≡ true)
      × (check_on_task (some message) true ended
          ≡ checked (Types.ExecutionResult.err (seen_error r)))
unfolding terminations new_instance
first_reason_wins iso r rs message n =
    let h : InstanceHandle = record { creation_generation = iso.generation } in
    let started : Isolate = record iso { termination_reason = some unknown } in
    let ended = do_remote_termination h r started in
    (
      terminations-terminating h rs ended (unfold do_remote_termination in ground arith),
      check-reason (terminations h rs ended) r message
          (terminations-first h r rs ended n (unfold do_remote_termination in ground arith)),
    )
