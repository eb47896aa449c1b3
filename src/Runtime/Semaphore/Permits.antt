-- ===== src/Runtime/Semaphore/Permits.antt =====
-- No more permits are out than the semaphore was made with.
use summer21_rusty_workers.Prelude.{
  ◌↔◌, ◌∙◌, ℕ, zero, suc, ◌+◌, ◌≡◌, refl, Option, none, some, List, [], ◌∷◌, arith,
}
use summer21_rusty_workers.Runtime.Semaphore.{
  Semaphore, new, send, send_all, receive, acquire_timeout, drop_permit,
}

-- The semaphore and the number of permits that are out.
pub record Lent : Type 0 where
  pub semaphore : Semaphore
  pub out : ℕ

pub data Action : Type 0 where
  acquires drops : Action

-- A permit that is not out cannot be dropped.
pub taken : Lent → Option Semaphore → Lent
taken l none = l
taken l (some s) = record { semaphore = s; out = suc l.out }

pub given_back : Lent → ℕ → Lent
given_back l zero = l
given_back l (suc n) = record { semaphore = drop_permit l.semaphore; out = n }

pub act : Lent → Action → Lent
unfolding taken given_back
act l acquires = taken l (acquire_timeout l.semaphore)
act l drops = given_back l l.out

pub acts : Lent → List Action → Lent
unfolding act
acts l [] = l
acts l (a ∷ rest) = acts (act l a) rest

abbrev total : Lent → ℕ
total l = l.semaphore.free + l.out

free-send_all : (n : ℕ) (s : Semaphore) → (send_all n s).free ≡ s.free + n
unfolding send_all
free-send_all zero s = omega arith
free-send_all (suc n) s = omega (arith, free-send_all n (send s))

taken-total : (l : Lent) (n : ℕ) → l.semaphore.free ≡ n → total (taken l (receive n)) ≡ total l
unfolding taken receive
taken-total l zero e = refl
taken-total l (suc n) e = omega arith

given_back-total : (l : Lent) (n : ℕ) → l.out ≡ n → total (given_back l n) ≡ total l
unfolding given_back drop_permit
given_back-total l zero e = refl
given_back-total l (suc n) e = omega arith

act-total : (l : Lent) (a : Action) → total (act l a) ≡ total l
unfolding act acquire_timeout
act-total l acquires = taken-total l l.semaphore.free refl
act-total l drops = given_back-total l l.out refl

acts-total : (l : Lent) (as' : List Action) → total (acts l as') ≡ total l
unfolding acts
acts-total l [] = refl
acts-total l (a ∷ as') = acts-total (act l a) as' ∙ act-total l a

receive-none : (n : ℕ) → (receive n ≡ none) ↔ (n ≡ 0)
unfolding receive
receive-none zero = (λ _. refl, λ _. refl)
receive-none (suc n) = (λ h. cc, λ h. cc)

-- After any acquisitions and drops, the free permits and those that are out make up the number that
-- the semaphore was made with; and an acquisition times out exactly when all of them are out.
pub permits-conserved :
    (n : ℕ) (l : List Action)
    → let t = acts (record { semaphore = new n; out = 0 }) l in
      (t.semaphore.free + t.out ≡ n) × ((acquire_timeout t.semaphore ≡ none) ↔ (t.out ≡ n))
unfolding new
permits-conserved n l =
    let start : Lent = record { semaphore = send_all n (record { free = 0 }); out = 0 } in
    let sum : total (acts start l) ≡ n =
      omega (arith, acts-total start l, free-send_all n (record { free = 0 })) in
    let empty = receive-none (acts start l).semaphore.free in
    (
      sum,
      (
        λ h. omega (arith, sum, empty.0 (unfold acquire_timeout in h)),
        λ h. unfold acquire_timeout in empty.1 (omega (arith, sum, h)),
      ),
    )
