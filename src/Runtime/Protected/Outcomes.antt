-- ===== src/Runtime/Protected/Outcomes.antt =====
-- What becomes of a thread that runs scripts.
use summer21_rusty_workers.Prelude.{
  ℕ, ◌+◌, ◌≡◌, refl, ap, ◌∙◌, ◌&&◌, ◌||◌, not, Bool, true, false, leb, if◌then◌else◌, arith,
}
use summer21_rusty_workers.Runtime.Protected.{
  IsolateConfig, Act, Acts, nil, cons, calls_host, uses_up, Thread, Progress, goes_on, jumps,
  panics, Protected, returns, aborts, check_host_entry_memory, oom_protected_callback, call_back,
  wrap_callback, continue, acts, after_call, enter_call, protected_js,
}

-- There is room for a host function.
abbrev pub has_room : IsolateConfig → ℕ → Bool
has_room conf size = leb (size + conf.host_entry_threshold_memory_bytes) conf.max_memory_bytes

-- An act of a script that runs inside of a host function ends the process: it uses up the heap, or
-- calls the host, which is refused for want of room or finds `JMP_ENV` empty.
abbrev pub disturbs : IsolateConfig → Acts → Bool
disturbs conf nil = false
disturbs conf (cons uses_up l) = true
disturbs conf (cons (calls_host size inside ooms) l) =
    if has_room conf size then true else (if ooms then true else disturbs conf l)

-- The process ends inside of a host function.
abbrev pub is_fatal : IsolateConfig → Act → Bool
is_fatal conf (calls_host size inside ooms) = has_room conf size && (disturbs conf inside || ooms)
is_fatal conf uses_up = false

-- The heap is used up where the script can be left.
abbrev pub is_left : IsolateConfig → Act → Bool
is_left conf (calls_host size inside ooms) = ooms && not (has_room conf size)
is_left conf uses_up = true

-- What the first such act decides.
abbrev pub outcome : IsolateConfig → Acts → Progress
outcome conf nil = goes_on true
outcome conf (cons a l) =
    if is_fatal conf a then panics else (if is_left conf a then jumps else outcome conf l)

check-has_room :
    (conf : IsolateConfig) (size : ℕ) → check_host_entry_memory conf size ≡ has_room conf size
unfolding check_host_entry_memory
check-has_room conf size = ground arith

acts_inside :
    (conf : IsolateConfig) (l : Acts)
    → acts conf l false ≡ (if disturbs conf l then panics else goes_on false)
unfolding acts wrap_callback call_back oom_protected_callback continue
acts_inside conf nil = refl
acts_inside conf (cons uses_up l) = refl
acts_inside conf (cons (calls_host size inside ooms) l) =
    ground (arith, check-has_room conf size, acts_inside conf l)

called-by_room :
    (room inner ooms : Bool) (f : Bool → Progress)
    → continue
        (if room
          then call_back ooms (if inner then panics else goes_on false) true
          else (if ooms then oom_protected_callback true else goes_on true))
        f
      ≡ (if room && (inner || ooms) then panics else (if ooms && not room then jumps else f true))
unfolding call_back oom_protected_callback continue
called-by_room true true ooms f = refl
called-by_room true false true f = refl
called-by_room true false false f = refl
called-by_room false inner true f = refl
called-by_room false inner false f = refl

called-outcome :
    (conf : IsolateConfig) (size : ℕ) (inside l : Acts) (ooms : Bool)
    → acts conf l true ≡ outcome conf l
    → continue (wrap_callback conf size ooms (acts conf inside false) true) (λ e. acts conf l e)
      ≡ outcome conf (cons (calls_host size inside ooms) l)
unfolding wrap_callback
called-outcome conf size inside l ooms rest =
    ap
      (λ p.
        continue
          (if check_host_entry_memory conf size
            then call_back ooms p true
            else (if ooms then oom_protected_callback true else goes_on true))
          (λ e. acts conf l e))
      (acts_inside conf inside)
    ∙ ap
        (λ room.
          continue
            (if room
              then call_back ooms (if disturbs conf inside then panics else goes_on false) true
              else (if ooms then oom_protected_callback true else goes_on true))
            (λ e. acts conf l e))
        (check-has_room conf size)
    ∙ called-by_room (has_room conf size) (disturbs conf inside) ooms (λ e. acts conf l e)
    ∙ rw rest refl

acts-outcome : (conf : IsolateConfig) (l : Acts) → acts conf l true ≡ outcome conf l
unfolding acts continue oom_protected_callback
acts-outcome conf nil = refl
acts-outcome conf (cons uses_up l) = refl
acts-outcome conf (cons (calls_host size inside ooms) l) =
    called-outcome conf size inside l ooms (acts-outcome conf l)

-- How a protected call ends, from the outcome of its acts.
abbrev pub ended : IsolateConfig → ℕ → Bool → Progress → Protected
ended conf size poisoned (goes_on e) =
    returns (has_room conf size) (record { jmp_env = false; poisoned = poisoned })
ended conf size poisoned jumps = returns false (record { jmp_env = false; poisoned = true })
ended conf size poisoned panics = aborts

after_call-ended :
    (conf : IsolateConfig) (size : ℕ) (t : Thread) (p : Progress)
    → after_call conf size t p ≡ ended conf size t.poisoned p
unfolding after_call
after_call-ended conf size t (goes_on e) =
    ap (λ b. returns b (record { jmp_env = false; poisoned = t.poisoned }))
      (check-has_room conf size)
after_call-ended conf size t jumps = refl
after_call-ended conf size t panics = refl

-- How a protected call ends, for a thread that is in none. The first act decides that is one of these:
-- a host function that is entered with room for it, during which the heap is used up or a script
-- calls the host again with room for that too, ends the process; a script that uses up the heap, or
-- the exception that the room is missing if making it does so, makes the call fail and poisons the
-- isolate. Inside of a host function that was entered, an exception that uses up the heap ends the
-- process too. If there is no such act, the call succeeds exactly if the room for a host function is
-- left. Each call that returns leaves the thread ready for the next.
pub protected_js-ended :
    (conf : IsolateConfig) (size : ℕ) (l : Acts) (t : Thread)
    → t.jmp_env ≡ false
    → protected_js conf size l t ≡ ended conf size t.poisoned (outcome conf l)
unfolding protected_js enter_call
protected_js-ended conf size l t e =
    ap (enter_call conf size l t) e
    ∙ ap (after_call conf size t) (acts-outcome conf l)
    ∙ after_call-ended conf size t (outcome conf l)
