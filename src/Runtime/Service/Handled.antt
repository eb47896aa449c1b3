-- ===== src/Runtime/Service/Handled.antt =====
-- What a call of a script to the host can change.
use summer21_rusty_workers.Prelude.{ℕ, ◌≤◌, ◌≡◌, true, Option, some, List, [], ◌∷◌, ◌+◌, length}
use summer21_rusty_workers.Bytes.{Bytes}
use summer21_rusty_workers.BtreeMap
use summer21_rusty_workers.Types
use summer21_rusty_workers.Types.{HttpBody, binary, ResponseObject, ExecutionResult, GenericResult}
use summer21_rusty_workers.Runtime.MemoryPool.{acquire_precheck}
use summer21_rusty_workers.Runtime.Io.Waiter
use summer21_rusty_workers.Runtime.Service.{
  max_response_body_size, JsResult, ok, throws, Arguments, State, Called,
}

abbrev body_length : HttpBody → ℕ
body_length (binary b) = length b

abbrev Fits : ExecutionResult ResponseObject → Type 0
Fits (Types.ExecutionResult.ok res) = body_length res.body ≤ max_response_body_size
Fits (Types.ExecutionResult.err e) = Unit

-- Each response that was sent is within the limit.
abbrev pub AllFit : List (ExecutionResult ResponseObject) → Type 0
AllFit [] = Unit
AllFit (res ∷ sent) = Fits res × AllFit sent

record Unchanged (s t : State) : Type 0 where
  pub files : t.files ≡ s.files
  pub request : t.request ≡ s.request
  pub logged : t.logged ≡ s.logged
  pub io_waiter : t.io_waiter ≡ s.io_waiter
  pub pool : t.pool ≡ s.pool

abbrev pub Harmless : (State → State → Type 0) → State → Called → Type 0
Harmless P s (ok a, t) = Unit
Harmless P s (throws e, t) = P s t

record Performed (s : State) (c : Called) : Type 0 where
  fits : AllFit c.1.request.sent
  harmless : Harmless Unchanged s c

-- A call can fail before the memory for its text is taken, or after it.
pub data Memory (text : Option Bytes) (s t : State) : Type 0 where
  untouched : t.pool ≡ s.pool → Memory text s t
  text_taken :
      (x : Bytes)
      → text ≡ some x
      → length x ≤ 65536
      → t.pool.remaining_bytes + length x ≡ s.pool.remaining_bytes
      → Memory text s t

-- What a call that throws leaves behind.
pub record LeftBy (text : Option Bytes) (s t : State) : Type 0 where
  pub files : t.files ≡ s.files
  pub request : t.request ≡ s.request
  pub logged : t.logged ≡ s.logged
  pub io_waiter : t.io_waiter ≡ s.io_waiter
  pub memory : Memory text s t

pub record Handled (args : Arguments) (s : State) (c : Called) : Type 0 where
  pub fits : AllFit c.1.request.sent
  pub harmless : Harmless (LeftBy args.call_str) s c

-- What is known of the text of a call.
abbrev TextOf : Arguments → State → JsResult Bytes → Type 0
TextOf args s (throws e) = Unit
TextOf args s (ok x) =
    (args.call_str ≡ some x) × (length x ≤ 65536) × (acquire_precheck (length x) s.pool ≡ true)
