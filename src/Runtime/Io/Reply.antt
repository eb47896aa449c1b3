-- ===== src/Runtime/Io/Reply.antt =====
-- The second half of `handle_task` of rusty-workers-runtime/src/io.rs: what the services answer, the
-- buffers for it, and the reply that the worker gets.
pub mod RoundTrip
mod Tests
use summer21_rusty_workers.Prelude.{
  ℕ, zero, suc, ◌+◌, Bool, true, false, Option, none, some, List, [], ◌∷◌, length, ◌||◌,
  if◌then◌else◌,
}
use summer21_rusty_workers.Bytes.{Bytes}
use summer21_rusty_workers.Types
use summer21_rusty_workers.Types.{
  WorkerConfiguration, RequestObject, ResponseObject, HttpBody, binary, GenericError, GenericResult,
  execution, other, memory_limit_exceeded, io_timeout,
}
use summer21_rusty_workers.Data.Table.{Table}
use summer21_rusty_workers.Data.Call.{
  DataCall, DataReply, got, done, keys, compared, broken, Circumstance, exec,
}
use summer21_rusty_workers.Runtime.Io.Task.{
  AsyncCall, UserError, Request, sleep, send, ask, refuse, fail, request,
}

-- The text of a reply, as the value that it is made of.
pub data Text : Type 0 where
  null : Text
  user_ok : Text
  user_ok_bool : Bool → Text
  user_error : UserError → Text
  fetched : ResponseObject → Text
  fetch_failed : Bytes → Text

-- `Err` is an error of the services; `panics` is an index out of range.
pub data Handled : Type 0 where
  replied : Text → List Bytes → Handled
  failed : GenericError → Handled
  panics : Handled

-- How the executor answers a `BufferCreation`; `dropped` if its channel goes.
pub data Allocation : Type 0 where
  granted refused dropped : Allocation

-- The answer of the fetch service; `none` is an error of the transport.
pub data Fetched : Type 0 where
  response : ResponseObject → Fetched
  error : Bytes → Fetched

pub record Services : Type 0 where
  pub data_service : Circumstance
  pub connects : Bool
  pub fetch_service : RequestObject → Option (GenericResult Fetched)
  pub allocation : ℕ → Allocation

pub data Buffer : Type 0 where
  filled : Bytes → Buffer
  unavailable : GenericError → Buffer
  out_of_range : Buffer

abbrev pub zeros : ℕ → Bytes
zeros zero = []
zeros (suc n) = 0 ∷ zeros n

prepend : ℕ → Buffer → Buffer
prepend b (filled view) = filled (b ∷ view)
prepend b (unavailable e) = unavailable e
prepend b out_of_range = out_of_range

-- The loop `b.set(data[i])` over the view of a new buffer.
fill : Bytes → Bytes → Buffer
unfolding prepend
fill [] data_ = filled []
fill (x ∷ view) [] = out_of_range
fill (x ∷ view) (b ∷ data_) = prepend b (fill view data_)

-- allocate_arraybuffer_with_data; an `ArrayBuffer` that is new holds zeros
allocate_arraybuffer_with_data : Allocation → Bytes → Buffer
unfolding fill
allocate_arraybuffer_with_data granted bytes = fill (zeros (length bytes)) bytes
allocate_arraybuffer_with_data refused bytes = unavailable (execution memory_limit_exceeded)
allocate_arraybuffer_with_data dropped bytes = unavailable (execution io_timeout)

-- The reply with one more buffer in front.
with_buffer : Text → Buffer → Handled → Handled
with_buffer x (filled b) (replied y bs) = replied y (b ∷ bs)
with_buffer x (filled b) (failed e) = failed e
with_buffer x (filled b) panics = panics
with_buffer x (unavailable e) rest = failed e
with_buffer x out_of_range rest = panics

-- try_join_all over the allocations, from number i on
with_buffers : (ℕ → Allocation) → ℕ → Text → List Bytes → Handled
unfolding with_buffer allocate_arraybuffer_with_data
with_buffers allocation i x [] = replied x []
with_buffers allocation i x (b ∷ bs) =
    let rest = with_buffers allocation (i + 1) x bs in
    with_buffer x (allocate_arraybuffer_with_data (allocation i) b) rest

body_of : HttpBody → Bytes
body_of (binary body) = body

-- The body of a response goes into a buffer.
reply_fetched : Services → Option (GenericResult Fetched) → Handled
unfolding with_buffers body_of
reply_fetched s none = failed (other [])
reply_fetched s (some (Types.GenericResult.err e)) = failed e
reply_fetched s (some (Types.GenericResult.ok (error e))) = replied (fetch_failed e) []
reply_fetched s (some (Types.GenericResult.ok (response v))) =
    with_buffers s.allocation 0 (fetched (record v { body = binary [] })) (body_of v.body ∷ [])

reply_data : Services → DataReply → Handled
unfolding with_buffers
reply_data s (got none) = replied (user_ok_bool false) []
reply_data s (got (some value)) = with_buffers s.allocation 0 (user_ok_bool true) (value ∷ [])
reply_data s done = replied user_ok []
reply_data s (keys l) = with_buffers s.allocation 0 user_ok l
reply_data s (compared b) = replied (user_ok_bool b) []
reply_data s (broken e) = failed e

-- What the I/O calls of a request share: the database, and whether the fetch client is there.
module _ (t : Table) where
  open t use {Db}

  pub record Shared : Type 0 where
    pub db : Db
    pub fetch_client : Bool

  answer_request : Services → Shared → Request → Handled × Shared
  unfolding reply_fetched reply_data
  answer_request s h (sleep n) = (replied null [], h)
  answer_request s h (send req) =
      if h.fetch_client || s.connects
      then (reply_fetched s (s.fetch_service req), record h { fetch_client = true })
      else (failed (other []), h)
  answer_request s h (ask call) =
      let (r, db') = exec t s.data_service call h.db in (reply_data s r, record h { db = db' })
  answer_request s h (refuse e) = (replied (user_error e) [], h)
  answer_request s h (fail m) = (failed (other []), h)

  -- IoProcessorSharedState::handle_task
  pub handle_task : WorkerConfiguration → Services → AsyncCall → Shared → Handled × Shared
  unfolding answer_request
  handle_task conf s task h = answer_request s h (request conf task)
