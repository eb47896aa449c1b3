-- ===== src/Runtime/Io/Reply/RoundTrip.antt =====
-- Putting a value and getting it again.
use summer21_rusty_workers.Prelude.{
  ℕ, ◌+◌, ◌≤◌, ◌<◌, ◌≡◌, ◌⊎◌, inl, inr, refl, ap, ◌∙◌, true, false, some, [], ◌∷◌, length, arith,
}
use summer21_rusty_workers.Bytes.{Bytes, equals_refl}
use summer21_rusty_workers.BtreeMap
use summer21_rusty_workers.Types.{WorkerConfiguration}
use summer21_rusty_workers.Data.Table.{Table}
use summer21_rusty_workers.Data.Kv.{executed, is_live, expiration_of}
use summer21_rusty_workers.Data.Call.{
  got, done, Circumstance, exec, worker_data_get, worker_data_put,
}
use summer21_rusty_workers.Data.Call.Store.{visible, set, put, expiring, effect, Healthy}
use summer21_rusty_workers.Data.Call.Refinement.{exec-Refines}
use summer21_rusty_workers.Runtime.Io.Task.{ask, max_kv_key_size, max_kv_value_size}
use summer21_rusty_workers.Runtime.Io.Task.Key.{get_call, put_call, request-get, request-put}
use summer21_rusty_workers.Runtime.Io.Reply.{
  replied, user_ok, user_ok_bool, granted, Services, filled, zeros, fill, prepend, Shared,
  allocate_arraybuffer_with_data, with_buffer, with_buffers, reply_data, answer_request,
  handle_task,
}

fill-zeros : (bytes : Bytes) → fill (zeros (length bytes)) bytes ≡ filled bytes
unfolding fill prepend
fill-zeros [] = refl
fill-zeros (b ∷ bytes) = rw (fill-zeros bytes) refl

one_buffer :
    (s : Services) (value : Bytes)
    → s.allocation 0 ≡ granted
    → reply_data s (got (some value)) ≡ replied (user_ok_bool true) (value ∷ [])
unfolding reply_data with_buffers with_buffer allocate_arraybuffer_with_data
one_buffer s value g = rw (g, fill-zeros value) refl

module _ (t : Table) where
  open t use {Db, row}

  -- What the calls of the data service answer and do where nothing fails.
  put-row :
      (w : Circumstance) (id key value : Bytes) (ttl_ms n : ℕ) (db : Db)
      → Healthy w (worker_data_put id key value false ttl_ms)
      → expiration_of w.now ttl_ms ≡ some n
      → let r = exec t w (worker_data_put id key value false ttl_ms) db in
        (r.0 ≡ done) × (row id key r.1 ≡ some (record { value = value; expiration = n }))
  unfolding effect expiring put set
  put-row w id key value ttl_ms n db healthy e =
      let (answer, after) =
        (exec-Refines t w (worker_data_put id key value false ttl_ms) db).1 healthy in
      (answer, after id key ∙ rw (e, equals_refl id, equals_refl key) refl)

  get-value :
      (w : Circumstance) (id key value : Bytes) (n : ℕ) (db : Db)
      → ((i : ℕ) → w.works i ≡ true)
      → w.fate ≡ executed
      → row id key db ≡ some (record { value = value; expiration = n })
      → is_live w.now (record { value = value; expiration = n }) ≡ true
      → (exec t w (worker_data_get id key) db).0 ≡ got (some value)
  unfolding visible
  get-value w id key value n db works fate there live =
      ((exec-Refines t w (worker_data_get id key) db).1 (works, fate, tt)).0
      ∙ ap got (rw (there, live) refl)

  -- Not expired at the second time: no time to live, or not yet over.
  abbrev pub Lives : ℕ → ℕ → ℕ → Type 0
  Lives put_time ttl_ms now = (ttl_ms ≡ 0) ⊎ (now < put_time + ttl_ms)

  Lives-is_live :
      (put_time ttl_ms now n : ℕ) (value : Bytes)
      → expiration_of put_time ttl_ms ≡ some n
      → Lives put_time ttl_ms now
      → is_live now (record { value = value; expiration = n }) ≡ true
  unfolding expiration_of is_live
  Lives-is_live put_time ttl_ms now n value e (inl z) = ground arith
  Lives-is_live put_time ttl_ms now n value e (inr l) = ground arith

  -- No statement of the data service fails.
  pub record Well (s : Services) : Type 0 where
    pub works : (i : ℕ) → s.data_service.works i ≡ true
    pub fate : s.data_service.fate ≡ executed

  answer_put :
      (s : Services) (h : Shared t) (id key value : Bytes) (ttl_ms n : ℕ)
      → Well s
      → expiration_of s.data_service.now ttl_ms ≡ some n
      → let r = answer_request t s h (ask (worker_data_put id key value false ttl_ms)) in
        (r.0 ≡ replied user_ok [])
        × (row id key r.1.db ≡ some (record { value = value; expiration = n }))
  unfolding answer_request reply_data
  answer_put s h id key value ttl_ms n well e =
      let (answer, there) =
        put-row s.data_service id key value ttl_ms n h.db (well.works, well.fate, (n, e)) e in
      (ap (reply_data s) answer, there)

  answer_get :
      (s : Services) (h : Shared t) (id key value : Bytes) (n : ℕ)
      → Well s
      → s.allocation 0 ≡ granted
      → row id key h.db ≡ some (record { value = value; expiration = n })
      → is_live s.data_service.now (record { value = value; expiration = n }) ≡ true
      → (answer_request t s h (ask (worker_data_get id key))).0
        ≡ replied (user_ok_bool true) (value ∷ [])
  unfolding answer_request
  answer_get s h id key value n well g there live =
      ap (reply_data s)
        (get-value s.data_service id key value n h.db well.works well.fate there live)
      ∙ one_buffer s value g

  -- A value within the limits that a script has put, with no failure of the database, is what it gets
  -- in a buffer by any later call before the value expires, if the row is still the same then and the
  -- buffer is granted.
  pub handle_task-put-get :
      (conf : WorkerConfiguration) (name id key value : Bytes) (ttl_ms n : ℕ) (s s' : Services)
      (h h' : Shared t)
      → BtreeMap.get name conf.kv_namespaces ≡ some id
      → length key ≤ max_kv_key_size
      → length value ≤ max_kv_value_size
      → expiration_of s.data_service.now ttl_ms ≡ some n
      → Lives s.data_service.now ttl_ms s'.data_service.now
      → Well s
      → Well s'
      → s'.allocation 0 ≡ granted
      → row id key h'.db ≡ row id key (handle_task t conf s (put_call name key value ttl_ms) h).1.db
      → ((handle_task t conf s (put_call name key value ttl_ms) h).0 ≡ replied user_ok [])
        × ((handle_task t conf s' (get_call name key) h').0
            ≡ replied (user_ok_bool true) (value ∷ []))
  unfolding handle_task
  handle_task-put-get conf name id key value ttl_ms n s s' h h' found kf vf e lives well well' g
        same =
      let put = request-put conf name id key found kf value ttl_ms vf in
      let (answer, there) = answer_put s h id key value ttl_ms n well e in
      let there' : row id key h'.db ≡ some (record { value = value; expiration = n }) =
        same ∙ ap (λ r. row id key (answer_request t s h r).1.db) put ∙ there in
      (
        ap (λ r. (answer_request t s h r).0) put ∙ answer,
        ap (λ r. (answer_request t s' h' r).0) (request-get conf name id key found kf)
            ∙ answer_get s' h' id key value n well' g there'
                (Lives-is_live s.data_service.now ttl_ms s'.data_service.now n value e lives),
      )
