-- ===== src/Body.antt =====
-- Reading a request body chunk by chunk with a limit on its size: `read_request_body` of
-- rusty-workers-cp/src/main.rs and rusty-workers-playground-api/src/main.rs, and the same loop in
-- `handle_request` of rusty-workers-proxy/src/sched.rs.
pub mod Limit
mod Tests
use summer21_rusty_workers.Prelude.{
  ℕ, ◌+◌, Option, none, some, List, [], ◌∷◌, ◌++◌, length, ltb, if◌then◌else◌,
}
use summer21_rusty_workers.Bytes.{Bytes}

-- What the stream of the body yields; `broken` is an error of the connection.
pub data Chunk : Type 0 where
  bytes : Bytes → Chunk
  broken : Chunk

pub data Body (E : Type 0) : Type 0 where
  ok : Bytes → Body E
  err : E → Body E

module _ {E : Type 0} (limit : ℕ) (too_large lost : E) where
  -- one call of the closure of `for_each`, on `full_body` and `body_error`
  unfoldable pub read_chunk : Bytes × Option E → Chunk → Bytes × Option E
  read_chunk (full_body, body_error) (bytes x) =
      if ltb limit (length full_body + length x)
      then (full_body, some too_large)
      else (full_body ++ x, body_error)
  read_chunk (full_body, body_error) broken = (full_body, some lost)

  unfoldable pub read_chunks : Bytes × Option E → List Chunk → Bytes × Option E
  unfolding read_chunk
  read_chunks s [] = s
  read_chunks s (x ∷ xs) = read_chunks (read_chunk s x) xs

  unfoldable pub finish : Bytes × Option E → Body E
  finish (full_body, none) = ok full_body
  finish (full_body, some e) = err e

  unfoldable pub read_request_body : List Chunk → Body E
  unfolding read_chunks finish
  read_request_body chunks = finish (read_chunks ([], none) chunks)
