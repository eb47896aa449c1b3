-- ===== src/Runtime/Io/System/Slab.antt =====
-- What `issue` and a blocked send do to the slab.
use summer21_rusty_workers.Prelude.{
  ℕ, ◌+◌, ◌<◌, ◌≡◌, ◌≢◌, ap, inl, inr, Bool, true, false, Option, none, some, List, [], ◌∷◌, arith,
  ◌==◌, Bool-cases, Option-cases,
}
use summer21_rusty_workers.Prelude.Pick.{count}
use summer21_rusty_workers.Runtime.Io.Waiter
use summer21_rusty_workers.Runtime.Io.Waiter.{IoWaiter}
use summer21_rusty_workers.Runtime.Io.Processor.Conserved.{places, count_taken, count-append}
use summer21_rusty_workers.Runtime.Io.System.{
  System, Progress, goes_on, cannot, panics, keys, after_issue, block, has_room, send, issue,
  withdraw, unblock,
}

-- In each state: an index is in use in the slab as often as a call with it is in the channel, taken, in
-- flight, answered but not received, cancelled, or waits for room in the channel; no call is
-- cancelled while the loop runs; `wait` failed only after the loop had ended; and the channel has room
-- for a call.
pub record Tracked (s : System) : Type 0 where
  pub slab :
      (i : ℕ) → count i (keys s.waiter.inflight) ≡ places i s.processor + count_taken i s.blocked
  pub ends : s.processor.stopped ≡ false → s.processor.cancelled ≡ []
  pub over : s.ended ≡ true → s.processor.stopped ≡ true
  pub room : 0 < s.capacity

pub remove-keys :
    (index cb : ℕ) (l others : List (ℕ × ℕ)) (i : ℕ)
    → Waiter.remove index l ≡ some (cb, others)
    → count i (keys l) ≡ count i (index ∷ keys others)
unfolding Waiter.remove
remove-keys index cb [] others i h = absurd cc
remove-keys index cb ((j, c) ∷ l) others i h = elim (Bool-cases (j == index)) [
  | inl e ↦ ground arith
  | inr e ↦ elim (Option-cases (Waiter.remove index l)) [
    | inl f ↦ absurd (ground arith)
    | inr (r, f) ↦ ground (arith, remove-keys index r.0 l r.1 i f)
  ]
]

pub remove-found :
    (index : ℕ) (l : List (ℕ × ℕ)) → 0 < count index (keys l) → Waiter.remove index l ≢ none
unfolding Waiter.remove
remove-found index [] h e = ground arith
remove-found index ((j, c) ∷ l) h e = elim (Bool-cases (j == index)) [
  | inl f ↦ ground arith
  | inr f ↦ elim (Option-cases (Waiter.remove index l)) [
    | inl g ↦ remove-found index l (ground arith) g
    | inr (r, g) ↦ ground arith
  ]
]

abbrev pub Fine : Progress → Type 0
Fine (goes_on s) = Tracked s
Fine cannot = Unit
Fine panics = ⊥

after_issue-Fine :
    (count_budget : Bool) (index cb : ℕ) (s : System)
    → Tracked s
    → Fine (after_issue index s (Waiter.issue count_budget index cb true s.waiter))
unfolding after_issue Waiter.issue Waiter.submit Waiter.spend
after_issue-Fine false index cb s h = record {
  slab = λ i. omega (arith, h.slab i, count-append i s.processor.task (index ∷ []));
  ends = h.ends;
  over = h.over;
  room = h.room;
}
after_issue-Fine true index cb s h = elim (Bool-cases (s.waiter.remaining_budget == 0)) [
  | inl e ↦ rw e h
  | inr e ↦ rw e (record {
    slab = λ i. omega (arith, h.slab i, count-append i s.processor.task (index ∷ []));
    ends = h.ends;
    over = h.over;
    room = h.room;
  })
]

failed-Fine :
    (count_budget : Bool) (index cb : ℕ) (s : System)
    → Tracked s
    → Fine (after_issue index s (Waiter.issue count_budget index cb false s.waiter))
unfolding after_issue Waiter.issue Waiter.submit Waiter.spend
failed-Fine false index cb s h = record {
  slab = h.slab;
  ends = h.ends;
  over = h.over;
  room = h.room;
}
failed-Fine true index cb s h = elim (Bool-cases (s.waiter.remaining_budget == 0)) [
  | inl e ↦ rw e h
  | inr e ↦ rw e (record { slab = h.slab; ends = h.ends; over = h.over; room = h.room })
]

block-Fine :
    (count_budget : Bool) (index cb : ℕ) (s : System)
    → Tracked s
    → s.blocked ≡ none
    → Fine (block index s (Waiter.issue count_budget index cb true s.waiter))
unfolding block Waiter.issue Waiter.submit Waiter.spend
block-Fine false index cb s h free = record {
  slab = λ i. omega (arith, h.slab i, ap (count_taken i) free);
  ends = h.ends;
  over = h.over;
  room = h.room;
}
block-Fine true index cb s h free = elim (Bool-cases (s.waiter.remaining_budget == 0)) [
  | inl e ↦ rw e h
  | inr e ↦ rw e (record {
    slab = λ i. omega (arith, h.slab i, ap (count_taken i) free);
    ends = h.ends;
    over = h.over;
    room = h.room;
  })
]

send-Fine :
    (count_budget : Bool) (index cb : ℕ) (s : System) (stopped : Bool)
    → Tracked s
    → s.blocked ≡ none
    → Fine (send count_budget index cb s stopped)
unfolding send
send-Fine count_budget index cb s true h free = failed-Fine count_budget index cb s h
send-Fine count_budget index cb s false h free = elim (Bool-cases (has_room s)) [
  | inl e ↦ rw e (after_issue-Fine count_budget index cb s h)
  | inr e ↦ rw e (block-Fine count_budget index cb s h free)
]

pub issue-Fine :
    (count_budget : Bool) (index cb : ℕ) (s : System) (b : Option ℕ) (closed : Bool)
    → Tracked s
    → s.blocked ≡ b
    → Fine (issue count_budget index cb s b closed)
unfolding issue
issue-Fine count_budget index cb s (some i) closed h e = tt
issue-Fine count_budget index cb s none true h e = tt
issue-Fine count_budget index cb s none false h e =
    elim (Bool-cases (count index (keys s.waiter.inflight) == 0)) [
      | inl f ↦ rw f (send-Fine count_budget index cb s s.processor.stopped h e)
      | inr f ↦ rw f tt
    ]

pub unblock-Fine :
    (s : System) (b : Option ℕ) (stopped : Bool)
    → Tracked s
    → s.blocked ≡ b
    → Fine (unblock s b stopped)
unfolding unblock withdraw Waiter.withdraw Waiter.withdrawn
unblock-Fine s none stopped h e = tt
unblock-Fine s (some index) true h e = elim (Option-cases (Waiter.remove index s.waiter.inflight)) [
  | inl f ↦ absurd (
      remove-found index s.waiter.inflight (grind (arith, h.slab index, ap (count_taken index) e))
        f)
  | inr ((cb, others), f) ↦ rw f (record {
    slab = λ i.
        omega (
          arith,
          h.slab i,
          ap (count_taken i) e,
          remove-keys index cb s.waiter.inflight others i f,
        );
    ends = h.ends;
    over = h.over;
    room = h.room;
  })
]
unblock-Fine s (some index) false h e = elim (Bool-cases (has_room s)) [
  | inl f ↦ rw f (record {
    slab = λ i.
        omega (arith, h.slab i, ap (count_taken i) e, count-append i s.processor.task (index ∷ []));
    ends = h.ends;
    over = h.over;
    room = h.room;
  })
  | inr f ↦ rw f tt
]
