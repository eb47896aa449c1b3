-- ===== src/Runtime/Executor/Answers.antt =====
-- Each request is answered once.
use summer21_rusty_workers.Prelude.{
  Bool, ◌≤◌, length-append, ◌≡◌, inl, inr, refl, true, false, List, [], ◌∷◌, if◌then◌else◌, arith,
  length, Bool-cases,
}
use summer21_rusty_workers.Types
use summer21_rusty_workers.Types.{ResponseObject, ExecutionError, ExecutionResult, GenericError}
use summer21_rusty_workers.Runtime.Executor.{
  Effect, sends, marks_done, Js, Round, Task, Request, finished, failed, blocked,
  try_send_fetch_response, affect, Run, signal, call_js, resume, exception, drive, complete,
  run_task, populated,
}

-- The sender is there and nothing was sent, or it is gone and one response was.
abbrev Once : Request → Type 0
Once r = length r.sent ≡ (if r.pending then 0 else 1)

try_send-sent :
    (res : ExecutionResult ResponseObject) (r : Request)
    → Once r
    → length (try_send_fetch_response res r).sent ≡ 1
unfolding try_send_fetch_response
try_send-sent res r h = ground (arith, length-append r.sent (res ∷ []))

try_send-pending :
    (res : ExecutionResult ResponseObject) (r : Request)
    → (try_send_fetch_response res r).pending ≡ false
unfolding try_send_fetch_response
try_send-pending res r = ground arith

try_send-Once :
    (res : ExecutionResult ResponseObject) (r : Request)
    → Once r
    → Once (try_send_fetch_response res r)
try_send-Once res r h = rw (try_send-pending res r) (try_send-sent res r h)

affect-Once : (es : List Effect) (r : Request) → Once r → Once (affect es r)
unfolding affect
affect-Once [] r h = h
affect-Once (sends res ∷ es) r h =
    affect-Once es _ (try_send-Once (Types.ExecutionResult.ok res) r h)
affect-Once (marks_done ∷ es) r h = affect-Once es _ h

call_js-Once :
    (js : Js) (r : Request) (next : Request → Run)
    → ((r' : Request) → Once r' → Once (next r').1)
    → Once r
    → Once (call_js js r next).1
unfolding call_js signal
call_js-Once js r next k h = elim (Bool-cases js.protected) [
  | inl e ↦ rw e (k (affect js.effects r) (affect-Once js.effects r h))
  | inr e ↦ rw e (affect-Once js.effects r h)
]

resume-Once :
    (x : Round) (r : Request) (next : Request → Run)
    → ((r' : Request) → Once r' → Once (next r').1)
    → Once r
    → Once (resume x r next).1
unfolding resume signal
resume-Once x r next k h = elim (Bool-cases x.arrives) [
  | inr e ↦ rw e (try_send-Once _ r h)
  | inl e ↦ elim (Bool-cases x.token) [
    | inr e' ↦ rw (e, e') h
    | inl e' ↦ elim (Bool-cases x.fits) [
      | inr e'' ↦ rw (e, e', e'') h
      | inl e'' ↦ rw (e, e', e'') (call_js-Once x.js r next k h)
    ]
  ]
]

if-Once : (b : Bool) (x y : Run) → Once x.1 → Once y.1 → Once (if b then x else y).1
if-Once true x y h k = h
if-Once false x y h k = k

drive-Once :
    (c : ExecutionResult (Unit {0})) (rounds : List Round) (r : Request)
    → Once r
    → Once (drive c rounds r).1
unfolding drive exception signal
drive-Once (Types.ExecutionResult.err e) rounds r h = try_send-Once _ r h
drive-Once (Types.ExecutionResult.ok _) [] r h = if-Once r.done _ _ h h
drive-Once (Types.ExecutionResult.ok _) (x ∷ rounds) r h = if-Once r.done _ _ h (
    resume-Once x r (λ r'. drive x.js.checked rounds r')
      (λ r' h'. drive-Once x.js.checked rounds r' h') h)

-- What is known of the answers to a request when its task has run.
pub record Answered (run : Run) : Type 0 where
  at_most_one : length run.1.sent ≤ 1
  none_while_pending : run.1.pending ≡ true → run.1.sent ≡ []
  one_when_finished : run.0 ≡ finished → length run.1.sent ≡ 1

sent_nil : {A : Type 0} (l : List A) → length l ≡ 0 → l ≡ []
sent_nil [] h = refl
sent_nil (x ∷ l) h = absurd (omega arith)

Once-Answered : (run : Run) → Once run.1 → (run.0 ≡ finished → run.1.pending ≡ false) → Answered run
Once-Answered (e, r, l) h f = record {
  at_most_one = ground arith;
  none_while_pending = λ p. sent_nil r.sent (ground arith);
  one_when_finished = λ p. ground (arith, f p);
}

complete-Answered : (run : Run) → Once run.1 → Answered (complete run)
unfolding complete
complete-Answered (finished, r, l) h =
    Once-Answered _ (try_send-Once _ r h) (λ _. try_send-pending _ r)
complete-Answered (failed e, r, l) h = Once-Answered _ h (λ p. cc)
complete-Answered (blocked, r, l) h = Once-Answered _ h (λ p. cc)

started-Answered :
    (t : Task) → Answered (complete (call_js t.js populated (λ r. drive t.js.checked t.rounds r)))
started-Answered t = complete-Answered _ (
    call_js-Once t.js populated (λ r. drive t.js.checked t.rounds r)
      (λ r h. drive-Once t.js.checked t.rounds r h) refl)

-- However a task goes, its request gets at most one response, and exactly one if the task ends with
-- the instance alive; while the sender is still there none was sent.
pub run_task-Answered : (t : Task) → Answered (run_task t)
unfolding run_task signal
run_task-Answered t = elim (Bool-cases t.token) [
  | inr e ↦ rw e (record {
    at_most_one = omega arith;
    none_while_pending = λ p. refl;
    one_when_finished = λ p. cc;
  })
  | inl e ↦ elim (Bool-cases t.event) [
    | inr e' ↦ rw (e, e') (Once-Answered _ refl (λ p. cc))
    | inl e' ↦
        let a = started-Answered t in
        rw (e, e')
          (record {
            at_most_one = a.at_most_one;
            none_while_pending = a.none_while_pending;
            one_when_finished = a.one_when_finished;
          })
  ]
]
