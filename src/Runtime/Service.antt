-- ===== src/Runtime/Service.antt =====
-- `call_service_callback` of rusty-workers-runtime/src/executor.rs, by which a script calls the host,
-- with the errors of error.rs and the digests of crypto.rs. The JSON of a call, the random bytes, the
-- digests of ring and the slab of the waiter are parameters.
pub mod Handled
mod Tests
use summer21_rusty_workers.Prelude.{
  ℕ, zero, suc, ◌+◌, ◌*◌, Bool, true, false, Option, none, some, List, [], ◌∷◌, ◌++◌, length, ltb,
  if◌then◌else◌,
}
use summer21_rusty_workers.Bytes.{Bytes}
use summer21_rusty_workers.BtreeMap
use summer21_rusty_workers.BtreeMap.{BtreeMap}
use summer21_rusty_workers.Types
use summer21_rusty_workers.Types.{
  ResponseObject, binary, ExecutionResult, memory_limit_exceeded, GenericError, GenericResult,
  execution, conversion, typeck, io, database, executor, v8_unknown, script_init_exception,
  io_limit_exceeded, try_again, other,
}
use summer21_rusty_workers.Runtime.Executor.{Request, try_send_fetch_response}
use summer21_rusty_workers.Runtime.MemoryPool.{MemoryPool, acquire_precheck, take_bytes}
use summer21_rusty_workers.Runtime.Io.Task.{AsyncCallV, read_to_vec}
use summer21_rusty_workers.Runtime.Io.Waiter
use summer21_rusty_workers.Runtime.Io.Waiter.{IoWaiter}

abbrev pub max_response_body_size : ℕ
max_response_body_size = 8 * 1024 * 1024

pub data JsErrorKind : Type 0 where
  error type_error reference_error : JsErrorKind

-- The texts of the errors.
pub data Message : Type 0 where
  call_string_too_large too_many_buffers missing_buffer body_too_large random_too_long : Message
  io_service_not_available not_a_buffer conversion_error typeck_error : Message
  memory_limit generic_error bad_type : Message

pub record JsError : Type 0 where
  pub kind : JsErrorKind
  pub message : Option Message

pub data JsResult {ℓ} (A : Type ℓ) : Type ℓ where
  ok : A → JsResult A
  throws : JsError → JsResult A

-- JsError::error
pub js_error : Message → JsError
js_error m = record { kind = error; message = some m }

-- From<GenericError>
pub from_generic : GenericError → JsError
unfolding js_error
from_generic conversion = record { kind = type_error; message = some conversion_error }
from_generic (typeck expected) = record { kind = type_error; message = some typeck_error }
from_generic (execution memory_limit_exceeded) = js_error memory_limit
from_generic _ = js_error generic_error

-- From<v8::DataError> for a value of another type
pub not_of_type : JsError
not_of_type = record { kind = type_error; message = some bad_type }

pub data DigestAlgorithm : Type 0 where
  sha1 sha256 sha384 sha512 : DigestAlgorithm

pub data CryptoCall : Type 0 where
  digest : DigestAlgorithm → CryptoCall

-- interface.rs
pub data SyncCall : Type 0 where
  log : Bytes → SyncCall
  done : SyncCall
  send_fetch_response : ResponseObject → SyncCall
  get_random_values : SyncCall
  get_file : Bytes → SyncCall
  crypto : CryptoCall → SyncCall

pub data ServiceCall : Type 0 where
  sync : SyncCall → ServiceCall
  async : AsyncCallV → ServiceCall

-- What is not code of the repository: `serde_json`, `rand`, `ring`, and for a call that is issued the
-- index of the slab and whether the channel takes it.
pub record Environment : Type 0 where
  pub from_reader : Bytes → Option ServiceCall
  pub random : ℕ → Bytes
  pub hash : DigestAlgorithm → Bytes → Bytes
  pub index : ℕ
  pub is_sent : Bool

-- What `get_index` gives for an element of the array of buffers: nothing where reading it throws, a
-- value that is no view of a buffer, or the bytes of its view.
pub data Element : Type 0 where
  absent not_a_view : Element
  view : Bytes → Element

-- The arguments: the UTF-8 of the first if it is a string, the elements of the second if it is an array,
-- and the third if it is a function.
pub record Arguments : Type 0 where
  pub call_str : Option Bytes
  pub buffers : Option (List Element)
  pub callback : Option ℕ

-- What of the instance and its isolate a call can change. The buffers of a call that were written are
-- part of the answer.
pub record State : Type 0 where
  pub files : BtreeMap Bytes
  pub request : Request
  pub logged : List Bytes
  pub io_waiter : Option IoWaiter
  pub pool : MemoryPool

pub data Returned : Type 0 where
  nothing null : Returned
  array_buffer : Bytes → Returned

pub record Answer : Type 0 where
  pub returned : Returned
  pub buffers : List Bytes

abbrev pub Called : Type 0
Called = JsResult Answer × State

or_throw {ℓ} : {A : Type ℓ} → JsError → Option A → JsResult A
or_throw e none = throws e
or_throw e (some a) = ok a

then_js {ℓ} : {A B : Type ℓ} → JsResult A → (A → JsResult B) → JsResult B
then_js (ok a) f = f a
then_js (throws e) f = throws e

-- A new array buffer takes its bytes from the pool.
charge : ℕ → State → State
charge n s = record s { pool = elim (take_bytes n s.pool) [ none ↦ s.pool | some p ↦ p ] }

-- acquire_arraybuffer_precheck, then the buffer
new_arraybuffer : Bytes → List Bytes → State → Called
unfolding from_generic charge
new_arraybuffer bytes buffers s =
    if acquire_precheck (length bytes) s.pool
    then (ok (record { returned = array_buffer bytes; buffers = buffers }), charge (length bytes) s)
    else (throws (from_generic (execution memory_limit_exceeded)), s)

abbrev plain : List Bytes → Answer
plain buffers = record { returned = nothing; buffers = buffers }

-- CryptoCall::run
pub run : Environment → CryptoCall → List Bytes → State → Called
unfolding js_error new_arraybuffer
run env (digest alg) [] s = (throws (js_error missing_buffer), s)
run env (digest alg) (buf ∷ buffers) s = new_arraybuffer (env.hash alg buf) (buf ∷ buffers) s

-- the body of a response, once it is copied
send_body : ResponseObject → List Bytes → State → Option Bytes → Called
unfolding js_error
send_body res buffers s none = (throws (js_error body_too_large), s)
send_body res buffers s (some body) = (
  ok (plain buffers),
  record s {
    request =
        try_send_fetch_response (Types.ExecutionResult.ok (record res { body = binary body }))
          s.request;
  },
)

get_file_of : Option Bytes → List Bytes → State → Called
unfolding new_arraybuffer
get_file_of none buffers s = (ok (record { returned = null; buffers = buffers }), s)
get_file_of (some file) buffers s = new_arraybuffer file buffers s

call_sync : Environment → SyncCall → List Bytes → State → Called
unfolding js_error run send_body get_file_of read_to_vec
call_sync env (log x) buffers s = (ok (plain buffers), record s { logged = s.logged ++ x ∷ [] })
call_sync env done buffers s =
    (ok (plain buffers), record s { request = record s.request { done = true } })
call_sync env (send_fetch_response res) [] s = (throws (js_error missing_buffer), s)
call_sync env (send_fetch_response res) (buf ∷ buffers) s =
    send_body res (buf ∷ buffers) s (read_to_vec max_response_body_size buf)
call_sync env get_random_values [] s = (throws (js_error missing_buffer), s)
call_sync env get_random_values (output ∷ buffers) s =
    if ltb 65536 (length output)
    then (throws (js_error random_too_long), s)
    else (ok (plain (env.random (length output) ∷ buffers)), s)
call_sync env (get_file name) buffers s = get_file_of (BtreeMap.get name s.files) buffers s
call_sync env (crypto inner) buffers s = run env inner buffers s

issued : List Bytes → State → GenericResult (Unit {0}) × IoWaiter → Called
unfolding from_generic
issued buffers s (Types.GenericResult.ok u, w) =
    (ok (plain buffers), record s { io_waiter = some w })
issued buffers s (Types.GenericResult.err e, w) =
    (throws (from_generic e), record s { io_waiter = some w })

call_async : Environment → Option ℕ → Option IoWaiter → List Bytes → State → Called
unfolding js_error not_of_type issued
call_async env none waiter buffers s = (throws not_of_type, s)
call_async env (some cb) none buffers s = (throws (js_error io_service_not_available), s)
call_async env (some cb) (some w) buffers s =
    issued buffers s (Waiter.issue false env.index cb env.is_sent w)

perform : Environment → Option ℕ → State → ServiceCall × List Bytes → Called
unfolding call_sync call_async
perform env callback s (sync call, buffers) = call_sync env call buffers s
perform env callback s (async call, buffers) = call_async env callback s.io_waiter buffers s

-- the text of the call, up to the check of the memory for its copy
call_text : Arguments → State → JsResult Bytes
unfolding or_throw then_js js_error from_generic not_of_type
call_text args s = then_js (or_throw not_of_type args.call_str) (λ x.
    if ltb 65536 (length x)
    then throws (js_error call_string_too_large)
    else (if acquire_precheck (length x) s.pool
        then ok x
        else throws (from_generic (execution memory_limit_exceeded))))

collect : List Element → JsResult (List Bytes)
unfolding then_js
collect [] = ok []
collect (absent ∷ elements) = throws (record { kind = error; message = none })
collect (not_a_view ∷ elements) = throws (record { kind = type_error; message = some not_a_buffer })
collect (view bytes ∷ elements) = then_js (collect elements) (λ l. ok (bytes ∷ l))

abbrev count : List Element → ℕ
count [] = 0
count (element ∷ elements) = suc (count elements)

few : List Element → JsResult (List Bytes)
unfolding collect js_error
few elements =
    if ltb 256 (count elements) then throws (js_error too_many_buffers) else collect elements

-- the call and its buffers
decode : Environment → Arguments → Bytes → JsResult (ServiceCall × List Bytes)
unfolding then_js or_throw few not_of_type from_generic
decode env args x = then_js (or_throw (from_generic conversion) (env.from_reader x)) (λ call.
    then_js (or_throw not_of_type args.buffers)
      (λ elements. then_js (few elements) (λ buffers. ok (call, buffers))))

serve : Environment → Arguments → State → JsResult (ServiceCall × List Bytes) → Called
unfolding perform
serve env args s (ok call) = perform env args.callback s call
serve env args s (throws e) = (throws e, s)

enter : Environment → Arguments → State → JsResult Bytes → Called
unfolding serve decode charge
enter env args s (ok x) = serve env args (charge (length x) s) (decode env args x)
enter env args s (throws e) = (throws e, s)

pub call_service_callback : Environment → Arguments → State → Called
unfolding call_text enter
call_service_callback env args s = enter env args s (call_text args s)
