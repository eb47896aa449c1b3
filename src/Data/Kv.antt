-- ===== src/Data/Kv.antt =====
-- `worker_data_get`, `worker_data_put`, `worker_data_scan_keys`, `worker_data_delete` and
-- `worker_data_cmpupdate` of rusty-workers/src/db.rs. A transaction sees no changes by others: the
-- rows that it has read are locked.
use summer21_rusty_workers.Prelude.{
  ℕ, ◌+◌, ◌^◌, Bool, true, false, Option, none, some, List, [], ◌∷◌, ltb, ◌==◌, ◌&&◌, ◌||◌, not,
  if◌then◌else◌, length,
}
use summer21_rusty_workers.Bytes.{Bytes, equals, precedes}
use summer21_rusty_workers.Types
use summer21_rusty_workers.Types.{GenericResult, GenericError, database, other}
use summer21_rusty_workers.Data.Table.{Table, Row}

-- What becomes of a statement that changes the database: an error of the connection can come before or
-- after it is executed.
pub data Fate : Type 0 where
  executed failed unconfirmed : Fate

-- (appexpiration = 0 or appexpiration > ?)
unfoldable pub is_live : ℕ → Row → Bool
is_live now r = r.expiration == 0 || ltb now r.expiration

-- The time of expiration, if it fits a u64: `checked_add`.
unfoldable pub expiration_of : ℕ → ℕ → Option ℕ
expiration_of now ttl_ms =
    if ttl_ms == 0
    then some 0
    else if ltb (now + ttl_ms) (2 ^ 64)
    then some (now + ttl_ms)
    else none

abbrev pub lost : GenericError
lost = database []

-- appkey between ? and ?, or appkey >= ?
unfoldable pub in_range : Bytes → Option Bytes → Bytes → Bool
in_range start none k = not (precedes k start)
in_range start (some end) k = not (precedes k start) && not (precedes end k)

-- the condition of an assertion
abbrev pub is_value : ℕ → Bytes → Row → Bool
is_value now v r = equals r.value v && is_live now r

module _ (t : Table) where
  open t use {Db, select_first, insert_or_update, replace_unless, delete, select_keys}

  unfoldable pub value_of : Option Row → Option Bytes
  value_of none = none
  value_of (some r) = some r.value

  unfoldable pub worker_data_get : Bool → ℕ → Bytes → Bytes → Db → GenericResult (Option Bytes)
  unfolding value_of
  worker_data_get works now namespace_id key db =
      if works
      then Types.GenericResult.ok (value_of (select_first namespace_id key (is_live now) db))
      else Types.GenericResult.err lost

  -- the result of a statement, and the database after it
  unfoldable pub confirm : {A : Type 0} → Fate → A → Db → Db → GenericResult A × Db
  confirm executed a before after = (Types.GenericResult.ok a, after)
  confirm failed a before after = (Types.GenericResult.err lost, before)
  confirm unconfirmed a before after = (Types.GenericResult.err lost, after)

  unfoldable pub put_row : Bytes → Bytes → Row → Bool → ℕ → Db → Db
  put_row ns k r if_not_exists now db =
      if if_not_exists then replace_unless ns k r (is_live now) db else insert_or_update ns k r db

  unfoldable pub put_expiring :
      Fate → ℕ → Bytes → Bytes → Bytes → Bool → Option ℕ → Db → GenericResult (Unit {0}) × Db
  unfolding confirm put_row
  put_expiring fate later ns k v if_not_exists none db = (Types.GenericResult.err (other []), db)
  put_expiring fate later ns k v if_not_exists (some expiration) db =
      confirm fate tt db
        (put_row ns k (record { value = v; expiration = expiration }) if_not_exists later db)

  -- The clock is read for the expiration, and again for the condition.
  unfoldable pub worker_data_put :
      Fate → ℕ → ℕ → Bytes → Bytes → Bytes → Bool → ℕ → Db → GenericResult (Unit {0}) × Db
  unfolding put_expiring
  worker_data_put fate now later namespace_id key value if_not_exists ttl_ms db =
      put_expiring fate later namespace_id key value if_not_exists (expiration_of now ttl_ms) db

  unfoldable pub worker_data_scan_keys :
      Bool → ℕ → Bytes → Bytes → Option Bytes → ℕ → Db → GenericResult (List Bytes)
  worker_data_scan_keys works now namespace_id start end limit db =
      if works
      then Types.GenericResult.ok
          (select_keys namespace_id (in_range start end) (is_live now) limit db)
      else Types.GenericResult.err lost

  unfoldable pub worker_data_delete : Fate → Bytes → Bytes → Db → GenericResult (Unit {0}) × Db
  unfolding confirm
  worker_data_delete fate namespace_id key db = confirm fate tt db (delete namespace_id key db)

  -- the loop over the assertions, from statement number i on; `none` is an error of a statement
  unfoldable pub check_assertions :
      (ℕ → Bool) → ℕ → ℕ → Bytes → List (Bytes × Bytes) → Db → Option Bool
  check_assertions works i now ns [] db = some true
  check_assertions works i now ns ((k, v) ∷ assertions) db =
      let rest = check_assertions works (i + 1) now ns assertions db in
      if works i
      then elim (select_first ns k (is_value now v) db) [ none ↦ some false | some r ↦ rest ]
      else none

  -- exec_batch
  unfoldable pub write_all : Bytes → ℕ → List (Bytes × Bytes) → Db → Db
  write_all ns expiration [] db = db
  write_all ns expiration ((k, v) ∷ writes) db =
      write_all ns expiration writes
        (insert_or_update ns k (record { value = v; expiration = expiration }) db)

  -- from the outcome of the loop on; what is not committed is rolled back
  unfoldable pub commit_if : Bool → Fate → Option Bool → Db → Db → GenericResult Bool × Db
  unfolding confirm
  commit_if works fate none before after = (Types.GenericResult.err lost, before)
  commit_if works fate (some false) before after = (Types.GenericResult.ok false, before)
  commit_if works fate (some true) before after =
      if works then confirm fate true before after else (Types.GenericResult.err lost, before)

  -- Statements 0 and 1 start the transaction and prepare; then come the assertions, and the batch.
  unfoldable pub update_expiring :
      (ℕ → Bool)
      → Fate
      → ℕ
      → Bytes
      → List (Bytes × Bytes)
      → List (Bytes × Bytes)
      → Option ℕ
      → Db
      → GenericResult Bool × Db
  unfolding check_assertions write_all commit_if
  update_expiring works fate now ns assertions writes none db =
      (Types.GenericResult.err (other []), db)
  update_expiring works fate now ns assertions writes (some expiration) db =
      if works 0 && works 1
      then commit_if (works (2 + length assertions)) fate
          (check_assertions works 2 now ns assertions db) db (write_all ns expiration writes db)
      else (Types.GenericResult.err lost, db)

  unfoldable pub worker_data_cmpupdate :
      (ℕ → Bool)
      → Fate
      → ℕ
      → Bytes
      → List (Bytes × Bytes)
      → List (Bytes × Bytes)
      → ℕ
      → Db
      → GenericResult Bool × Db
  unfolding update_expiring
  worker_data_cmpupdate works fate current_time namespace_id assertions writes ttl_ms db =
      update_expiring works fate current_time namespace_id assertions writes
        (expiration_of current_time ttl_ms) db
