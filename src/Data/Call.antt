-- ===== src/Data/Call.antt =====
-- A call of `DataClient` for a worker's data, and what it does: the functions of rusty-workers/src/db.rs
-- that `handle_task` of rusty-workers-runtime/src/io.rs calls.
pub mod Store
pub mod View
pub mod Refinement
mod Tests
use summer21_rusty_workers.Prelude.{ℕ, Bool, Option, List}
use summer21_rusty_workers.Bytes.{Bytes}
use summer21_rusty_workers.Types
use summer21_rusty_workers.Types.{GenericResult, GenericError}
use summer21_rusty_workers.Data.Table.{Table}
use summer21_rusty_workers.Data.Kv
use summer21_rusty_workers.Data.Kv.{Fate}

-- The id of a namespace comes first.
pub data DataCall : Type 0 where
  worker_data_get : Bytes → Bytes → DataCall
  worker_data_put : Bytes → Bytes → Bytes → Bool → ℕ → DataCall
  worker_data_delete : Bytes → Bytes → DataCall
  worker_data_scan_keys : Bytes → Bytes → Option Bytes → ℕ → DataCall
  worker_data_cmpupdate : Bytes → List (Bytes × Bytes) → List (Bytes × Bytes) → ℕ → DataCall

pub data DataReply : Type 0 where
  got : Option Bytes → DataReply
  done : DataReply
  keys : List Bytes → DataReply
  compared : Bool → DataReply
  broken : GenericError → DataReply

-- What a call meets: the readings of the clock, whether its statements succeed, and what becomes of the
-- one that changes the database (of the commit, for a transaction).
pub record Circumstance : Type 0 where
  pub now : ℕ
  pub later : ℕ
  pub works : ℕ → Bool
  pub fate : Fate

reply_of : {A : Type 0} → (A → DataReply) → GenericResult A → DataReply
reply_of f (Types.GenericResult.ok a) = f a
reply_of f (Types.GenericResult.err e) = broken e

module _ (t : Table) where
  open t use {Db}

  pub exec : Circumstance → DataCall → Db → DataReply × Db
  unfolding reply_of
  exec w (worker_data_get ns k) db =
      (reply_of got (Kv.worker_data_get t (w.works 0) w.now ns k db), db)
  exec w (worker_data_put ns k v if_not_exists ttl_ms) db =
      let (r, db') = Kv.worker_data_put t w.fate w.now w.later ns k v if_not_exists ttl_ms db in
      (reply_of (λ _. done) r, db')
  exec w (worker_data_delete ns k) db =
      let (r, db') = Kv.worker_data_delete t w.fate ns k db in (reply_of (λ _. done) r, db')
  exec w (worker_data_scan_keys ns start end limit) db =
      (reply_of keys (Kv.worker_data_scan_keys t (w.works 0) w.now ns start end limit db), db)
  exec w (worker_data_cmpupdate ns assertions writes ttl_ms) db =
      let (r, db') =
        Kv.worker_data_cmpupdate t w.works w.fate w.now ns assertions writes ttl_ms db in
      (reply_of compared r, db')
