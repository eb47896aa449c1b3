-- ===== src/Proxy/Dispatch/Retries.antt =====
-- How the retry loop ends.
use native.Mathlib.Nat.{add-zero}
use summer21_rusty_workers.Prelude.{ℕ, zero, suc, ◌+◌, ◌<◌, ◌≡◌, ◌⊎◌, inl, inr, refl, arith}
use summer21_rusty_workers.Types.{RequestObject}
use summer21_rusty_workers.Proxy.State.{
  LocalConfig, AppState, Outcome, err, sched, request_failed_after_retries,
}
use summer21_rusty_workers.Proxy.Response.{Http, Response}
use summer21_rusty_workers.Proxy.Dispatch.{
  Shared, Attempt, Verdict, returned, continued, broken_off, attempt, conclude, rounds, dispatch,
}

Verdict-cases :
    {R : Type 0} (v : Verdict R)
    → ((r : Outcome R) × (v ≡ returned r)) ⊎ ((v ≡ continued) ⊎ (v ≡ broken_off))
Verdict-cases (returned r) = inl (r, refl)
Verdict-cases continued = inr (inl refl)
Verdict-cases broken_off = inr (inr refl)

module _ (http : Http) (c : LocalConfig) (app : AppState) (req : RequestObject)
    (attempts : ℕ → Attempt) where
  abbrev pub round : ℕ → Shared → Verdict (Response http) × Shared
  round i s = attempt http c app req (attempts i) s

  -- From s, the k rounds from number i on ask to continue, and lead to t.
  abbrev pub Retried : ℕ → Shared → ℕ → Shared → Type 0
  Retried i s zero t = s ≡ t
  Retried i s (suc k) t = ((round i s).0 ≡ continued) × Retried (suc i) (round i s).1 k t

  pub data Ending (i n : ℕ) (s : Shared) (r : Outcome (Response http) × Shared) : Type 0 where
    exhausted :
        (t : Shared)
        → Retried i s n t
        → r ≡ (err (sched request_failed_after_retries), t)
        → Ending i n s r
    decided :
        (k : ℕ) (t : Shared) (o : Outcome (Response http))
        → k < n
        → Retried i s k t
        → (round (i + k) t).0 ≡ returned o
        → r ≡ (o, (round (i + k) t).1)
        → Ending i n s r
    given_up :
        (k : ℕ) (t : Shared)
        → k < n
        → Retried i s k t
        → (round (i + k) t).0 ≡ broken_off
        → r ≡ (err (sched request_failed_after_retries), (round (i + k) t).1)
        → Ending i n s r

  later :
      (i n : ℕ) (s : Shared) (r : Outcome (Response http) × Shared)
      → (round i s).0 ≡ continued
      → Ending (suc i) n (round i s).1 r
      → Ending i (suc n) s r
  later i n s r e (exhausted t p q) = exhausted t (e, p) q
  later i n s r e (decided k t o lt p q w) =
      decided (suc k) t o (omega arith) (e, p) (rw (step i k) q) (rw (step i k) w)
    where
      step : (i k : ℕ) → i + suc k ≡ suc i + k
      step i k = omega arith
  later i n s r e (given_up k t lt p q w) =
      given_up (suc k) t (omega arith) (e, p) (rw (step i k) q) (rw (step i k) w)
    where
      step : (i k : ℕ) → i + suc k ≡ suc i + k
      step i k = omega arith

  rounds-Ending : (n i : ℕ) (s : Shared) → Ending i n s (rounds http c app req attempts n i s)
  unfolding rounds
  rounds-Ending zero i s = exhausted s refl refl
  rounds-Ending (suc n) i s =
      let next = rounds-Ending n (suc i) (round i s).1 in
      elim (Verdict-cases (round i s).0) [
        | inl (o, e) ↦ decided 0 s o (omega arith) refl (rw add-zero e) (rw (e, add-zero) refl)
        | inr (inl e) ↦ rw (e, conclude) (later i n s _ e next)
        | inr (inr e) ↦ given_up 0 s (omega arith) refl (rw add-zero e) (rw (e, add-zero) refl)
      ]

  -- A request is sent at most three times, again only after a round that asks to continue; the
  -- result is that of the last round, or the error that the retries are used up.
  pub dispatch-Ending : (s : Shared) → Ending 0 3 s (dispatch http c app req attempts s)
  unfolding dispatch
  dispatch-Ending s = rounds-Ending 3 0 s
