-- ===== src/Runtime/Executor/Discipline.antt =====
-- Scripts run only with the execution token and under the timer.
use summer21_rusty_workers.Prelude.{
  subst, if◌then◌else◌, ◌≡◌, inl, inr, refl, Bool, true, false, Option, none, some, List, [], ◌∷◌,
  ◌++◌, Bool-cases,
}
use summer21_rusty_workers.Types
use summer21_rusty_workers.Types.{
  other, GenericError, ExecutionResult, ExecutionError, terminates_worker,
}
use summer21_rusty_workers.Runtime.Executor.{
  memory_error, run_script, check_on_init, carry_on, signals, Life, Signal, takes_token,
  drops_token, starts_timer, stops_timer, resets_timer, waits, runs_js, Js, Round, Task, Init,
  Request, finished, failed, blocked, affect, Run, signal, call_js, resume, exception, drive,
  complete, run_task, populated, serve, run, yields, rests,
}

-- Whether the instance has the execution token, and whether its timer runs.
pub record Cpu : Type 0 where
  token : Bool
  timer : Bool

abbrev pub idle : Cpu
idle = record { token = false; timer = false }

abbrev pub held : Cpu
held = record { token = true; timer = false }

abbrev pub active : Cpu
active = record { token = true; timer = true }

-- The discipline: the timer runs only with the token, an instance waits only without both, and a
-- script runs only with both. `none` is a violation.
pub obey : Signal → Bool → Bool → Option Cpu
obey takes_token false false = some held
obey drops_token true false = some idle
obey starts_timer true false = some active
obey stops_timer token timer = some (record { token = token; timer = false })
obey resets_timer token false = some (record { token = token; timer = false })
obey waits false false = some idle
obey runs_js true true = some active
obey _ _ _ = none

-- The signals obey the discipline, and lead from one state to another.
abbrev pub Obeys : List Signal → Cpu → Cpu → Type 0
Obeys [] c d = c ≡ d
Obeys (s ∷ l) c d = (x : Cpu) × (obey s c.token c.timer ≡ some x) × Obeys l x d

Obeys-append : (l m : List Signal) (c d e : Cpu) → Obeys l c d → Obeys m d e → Obeys (l ++ m) c e
Obeys-append [] m c d e h k = rw h k
Obeys-append (s ∷ l) m c d e (x, o, h) k = (x, o, Obeys-append l m x d e h k)

-- From a state the signals of a run obey the discipline, and it ends active if it finishes.
record Disciplined (c : Cpu) (r : Run) : Type 0 where
  last : Cpu
  obeyed : Obeys r.2 c last
  active_at_end : r.0 ≡ finished → last ≡ active

signal-Disciplined :
    (l : List Signal) (c d : Cpu) (r : Run)
    → Obeys l c d
    → Disciplined d r
    → Disciplined c (signal l r)
unfolding signal
signal-Disciplined l c d (e, r, rest) o k = record {
  last = k.last;
  obeyed = Obeys-append l rest c d k.last o k.obeyed;
  active_at_end = k.active_at_end;
}

ends : (c : Cpu) (e : GenericError) (r : Request) → Disciplined c (failed e, r, [])
ends c e r = record { last = c; obeyed = refl; active_at_end = λ h. cc }

call_js-Disciplined :
    (js : Js) (r : Request) (next : Request → Run)
    → ((r' : Request) → Disciplined active (next r'))
    → Disciplined active (call_js js r next)
unfolding call_js obey
call_js-Disciplined js r next k =
    signal-Disciplined (runs_js ∷ []) active active _ (active, refl, refl)
      (elim (Bool-cases js.protected) [
        | inl e ↦ rw e (k (affect js.effects r))
        | inr e ↦ rw e (ends active _ _)
      ])

if-Disciplined :
    (c : Cpu) (b : Bool) (x y : Run)
    → Disciplined c x
    → Disciplined c y
    → Disciplined c (if b then x else y)
if-Disciplined c true x y h k = h
if-Disciplined c false x y h k = k

resume-Disciplined :
    (x : Round) (r : Request) (next : Request → Run)
    → ((r' : Request) → Disciplined active (next r'))
    → Disciplined idle (resume x r next)
unfolding resume obey
resume-Disciplined x r next k =
    if-Disciplined idle x.arrives _ _
      (if-Disciplined idle x.token _ _
        (signal-Disciplined (takes_token ∷ starts_timer ∷ []) idle active _
          (held, refl, (active, refl, refl))
          (if-Disciplined active x.fits _ _ (call_js-Disciplined x.js r next k) (ends active _ _)))
        (ends idle _ _))
      (ends idle _ _)

finishes : (r : Request) → Disciplined active (finished, r, [])
finishes r = record { last = active; obeyed = refl; active_at_end = λ h. refl }

yields-Obeys : Obeys yields active idle
unfolding obey
yields-Obeys = (held, refl, (idle, refl, (idle, refl, refl)))

exception-Disciplined : (e : ExecutionError) (r : Request) → Disciplined active (exception e r)
unfolding exception
exception-Disciplined e r = record { last = active; obeyed = refl; active_at_end = λ h. refl }

drive-Disciplined :
    (c : ExecutionResult (Unit {0})) (rounds : List Round) (r : Request)
    → Disciplined active (drive c rounds r)
unfolding drive
drive-Disciplined (Types.ExecutionResult.err e) rounds r = exception-Disciplined e r
drive-Disciplined (Types.ExecutionResult.ok _) [] r =
    if-Disciplined active r.done _ _ (finishes r)
      (record { last = idle; obeyed = yields-Obeys; active_at_end = λ h. cc })
drive-Disciplined (Types.ExecutionResult.ok _) (x ∷ rounds) r =
    if-Disciplined active r.done _ _ (finishes r) (
      signal-Disciplined yields active idle _ yields-Obeys (
        resume-Disciplined x r (λ r'. drive x.js.checked rounds r')
          (λ r'. drive-Disciplined x.js.checked rounds r')))

complete-Disciplined : (c : Cpu) (r : Run) → Disciplined c r → Disciplined c (complete r)
unfolding complete
complete-Disciplined c (finished, r, l) h = record {
  last = h.last;
  obeyed = h.obeyed;
  active_at_end = λ _. h.active_at_end refl;
}
complete-Disciplined c (failed e, r, l) h = h
complete-Disciplined c (blocked, r, l) h = h

run_task-Disciplined : (t : Task) → Disciplined idle (run_task t)
unfolding run_task obey
run_task-Disciplined t =
    if-Disciplined idle t.token _ _
      (signal-Disciplined (takes_token ∷ []) idle held _ (held, refl, refl)
        (signal-Disciplined (starts_timer ∷ []) held active _ (active, refl, refl)
          (if-Disciplined active t.event _ _
            (complete-Disciplined active _ (
              call_js-Disciplined t.js populated _
                (λ r. drive-Disciplined t.js.checked t.rounds r)))
            (ends active _ _))))
      (ends idle _ _)

rests-Obeys : Obeys rests active idle
unfolding obey
rests-Obeys = (held, refl, (held, refl, (idle, refl, (idle, refl, refl))))

abbrev pub Lawful : Cpu → Life → Type 0
Lawful c l = (d : Cpu) × Obeys l.1 c d

signals-Lawful :
    (l : List Signal) (c d : Cpu) (life : Life)
    → Obeys l c d
    → Lawful d life
    → Lawful c (signals l life)
unfolding signals
signals-Lawful l c d (e, rest) o k = (k.0, Obeys-append l rest c d k.0 o k.1)

if-Lawful :
    (c : Cpu) (b : Bool) (x y : Life) → Lawful c x → Lawful c y → Lawful c (if b then x else y)
if-Lawful c true x y h k = h
if-Lawful c false x y h k = k

carry_on-Lawful :
    (c : Cpu) (r : Run) (rest : Life)
    → Disciplined c r
    → Lawful active rest
    → Lawful c (carry_on r rest)
unfolding carry_on
carry_on-Lawful c (finished, r, l) rest h k =
    signals-Lawful l c active rest (subst (Obeys l c) (h.active_at_end refl) h.obeyed) k
carry_on-Lawful c (failed e, r, l) rest h k = (h.last, h.obeyed)
carry_on-Lawful c (blocked, r, l) rest h k = (h.last, h.obeyed)

serve-Lawful : (tasks : List Task) → Lawful active (serve tasks)
unfolding serve
serve-Lawful [] = (idle, rests-Obeys)
serve-Lawful (t ∷ tasks) =
    signals-Lawful rests active idle (carry_on (run_task t) (serve tasks)) rests-Obeys (
      carry_on-Lawful idle (run_task t) (serve tasks) (run_task-Disciplined t) (serve-Lawful tasks))

check_on_init-Lawful :
    (c : Cpu) (r : ExecutionResult (Unit {0})) (rest : Life)
    → Lawful c rest
    → Lawful c (check_on_init r rest)
unfolding check_on_init
check_on_init-Lawful c (Types.ExecutionResult.ok _) rest h = h
check_on_init-Lawful c (Types.ExecutionResult.err e) rest h = (c, refl)

run_script-Lawful : (js : Js) (tasks : List Task) → Lawful active (run_script js tasks)
unfolding run_script obey
run_script-Lawful js tasks =
    let rest = check_on_init js.checked (serve tasks) in
    signals-Lawful (runs_js ∷ []) active active
      (if js.protected then rest else (failed memory_error, [])) (active, refl, refl)
      (if-Lawful active js.protected _ _
        (check_on_init-Lawful active js.checked (serve tasks) (serve-Lawful tasks)) (active, refl))

-- In every life of an instance, whatever scripts, I/O and clients do: a script runs only while the
-- instance has the execution token and its timer runs, the timer runs only with the token, and the
-- instance waits for tasks and for I/O only without both.
pub run-Lawful : (i : Init) (tasks : List Task) → Lawful idle (run i tasks)
unfolding run obey
run-Lawful i tasks =
    let script = signals (starts_timer ∷ []) (run_script i.js tasks) in
    let ready = check_on_init i.checked_before script in
    if-Lawful idle i.token _ _
      (signals-Lawful (takes_token ∷ []) idle held
        (if i.compiled then ready else (failed (other []), [])) (held, refl, refl)
        (if-Lawful held i.compiled _ _
          (check_on_init-Lawful held i.checked_before script (
            signals-Lawful (starts_timer ∷ []) held active (run_script i.js tasks)
              (active, refl, refl) (run_script-Lawful i.js tasks)))
          (held, refl)))
      (idle, refl)
