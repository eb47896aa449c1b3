-- ===== src/Data/Call/Refinement.antt =====
-- The calls on the tables, and their effect on a store.
use summer21_rusty_workers.Prelude.{
  ℕ, ◌+◌, ◌≡◌, inl, inr, refl, ap, sym, ◌∙◌, Bool, true, false, Option, none, some, List, [], ◌∷◌,
  All, length, if◌then◌else◌, Bool-cases, arith,
}
use summer21_rusty_workers.Bytes.{Bytes}
use summer21_rusty_workers.Types
use summer21_rusty_workers.Types.{GenericResult, GenericError, other}
use summer21_rusty_workers.Data.Table.{Table, Row}
use summer21_rusty_workers.Data.Kv.{
  Fate, executed, failed, unconfirmed, is_live, is_value, in_range, expiration_of, lost, value_of,
  confirm, put_row, put_expiring, check_assertions, write_all, commit_if, update_expiring,
}
use summer21_rusty_workers.Data.Kv
use summer21_rusty_workers.Data.Call.{
  DataCall, worker_data_get, worker_data_put, worker_data_delete, worker_data_scan_keys,
  worker_data_cmpupdate, DataReply, got, done, keys, compared, broken, Circumstance, reply_of, exec,
}
use summer21_rusty_workers.Data.Call.Store
use summer21_rusty_workers.Data.Call.Store.{
  Store, Same, visible, set, set_all, has_value, holds, unless_visible, put, expiring, effect,
  Answers, Called, answered, not_done, Expires, Healthy,
}
use summer21_rusty_workers.Data.Call.View.{
  view, get-visible, put-Same, write_all-Same, check-holds, none-some, false-true,
}

module _ (t : Table) where
  open t use {
    Db, row, select_first, insert_or_update, replace_unless, delete, select_keys, select_first-row,
    row-insert, row-replace, row-delete, select_keys-found, select_keys-limit, select_keys-Distinct,
    select_keys-all,
  }

  -- A call as the store sees it, and, where nothing fails, answered with its whole effect.
  abbrev pub Refines : Circumstance → DataCall → Db → DataReply × Db → Type 0
  Refines w call db r =
      Called w call (view t db) r.0 (view t r.1)
      × (Healthy w call
          → Answers w call (view t db) r.0 × Same (view t r.1) (effect w call (view t db)))

  Same-refl : (db : Db) → Same (view t db) (view t db)
  Same-refl db ns k = refl

  confirmed :
      {A : Type 0} (w : Circumstance) (call : DataCall) (f : A → DataReply) (a : A) (db after : Db)
      (fate : Fate)
      → w.fate ≡ fate
      → Answers w call (view t db) (f a)
      → Same (view t after) (effect w call (view t db))
      → Refines w call db (let (r, db') = confirm t fate a db after in (reply_of f r, db'))
  unfolding confirm reply_of
  confirmed w call f a db after executed e h s = (answered h s, λ _. (h, s))
  confirmed w call f a db after failed e h s =
      (not_done lost refl (Same-refl db), λ g. absurd (not_executed (sym g.1 ∙ e)))
    where
      not_executed : executed ≡ failed → ⊥
      not_executed q = cc
  confirmed w call f a db after unconfirmed e h s =
      (Store.unconfirmed lost refl s, λ g. absurd (not_executed (sym g.1 ∙ e)))
    where
      not_executed : executed ≡ unconfirmed → ⊥
      not_executed q = cc

  read_only :
      {A : Type 0} (w : Circumstance) (call : DataCall) (f : A → DataReply) (a : A) (db : Db)
      (works : Bool)
      → (Healthy w call → works ≡ true)
      → Answers w call (view t db) (f a)
      → Same (view t db) (effect w call (view t db))
      → Refines w call db (
        reply_of f (if works then Types.GenericResult.ok a else Types.GenericResult.err lost),
        db,
      )
  unfolding reply_of
  read_only w call f a db true g h s = (answered h s, λ _. (h, s))
  read_only w call f a db false g h s =
      (not_done lost refl (Same-refl db), λ q. absurd (false-true (g q)))

  put-Refines :
      (w : Circumstance) (ns k v : Bytes) (if_not_exists : Bool) (ttl_ms : ℕ) (db : Db)
      (o : Option ℕ)
      → expiration_of w.now ttl_ms ≡ o
      → Refines w (worker_data_put ns k v if_not_exists ttl_ms) db (
          let (r, db') = put_expiring t w.fate w.later ns k v if_not_exists o db in
          (reply_of (λ _. done) r, db'))
  unfolding put_expiring effect expiring reply_of
  put-Refines w ns k v if_not_exists ttl_ms db none e =
      (not_done (other []) refl (Same-refl db), λ g. absurd (none-some (sym e ∙ g.2.1)))
  put-Refines w ns k v if_not_exists ttl_ms db (some n) e =
      confirmed w (worker_data_put ns k v if_not_exists ttl_ms) (λ _. done) tt db
        (put_row t ns k (record { value = v; expiration = n }) if_not_exists w.later db) w.fate refl
        refl (rw e (put-Same t w ns k (record { value = v; expiration = n }) if_not_exists db))

  abbrev pub CmpUpdate : Bytes → List (Bytes × Bytes) → List (Bytes × Bytes) → ℕ → DataCall
  CmpUpdate ns assertions writes ttl_ms = worker_data_cmpupdate ns assertions writes ttl_ms

  rolled_back :
      (w : Circumstance) (call : DataCall) (e : GenericError) (db : Db)
      → ¬ Healthy w call
      → Refines w call db (broken e, db)
  rolled_back w call e db n = (not_done e refl (Same-refl db), λ g. absurd (n g))

  committed :
      (w : Circumstance) (ns : Bytes) (assertions writes : List (Bytes × Bytes)) (ttl_ms n : ℕ)
      (db : Db) (works : Bool)
      → expiration_of w.now ttl_ms ≡ some n
      → (Healthy w (CmpUpdate ns assertions writes ttl_ms) → works ≡ true)
      → (b : Bool) → holds w.now ns assertions (view t db) ≡ b
      → Refines w (CmpUpdate ns assertions writes ttl_ms) db (
          let (r, db') = commit_if t works w.fate (some b) db (write_all t ns n writes db) in
          (reply_of compared r, db'))
  unfolding commit_if effect expiring reply_of
  committed w ns assertions writes ttl_ms n db works e g false h = (
    answered (ap compared (sym h)) (rw h (Same-refl db)),
    λ _. (ap compared (sym h), rw h (Same-refl db)),
  )
  committed w ns assertions writes ttl_ms n db false e g true h =
      rolled_back w _ lost db (λ q. false-true (g q))
  committed w ns assertions writes ttl_ms n db true e g true h =
      confirmed w (CmpUpdate ns assertions writes ttl_ms) compared true db
        (write_all t ns n writes db) w.fate refl (ap compared (sym h))
        (rw (h, e) (write_all-Same t ns n writes db (view t db) (Same-refl db)))

  cmpupdate-Refines :
      (w : Circumstance) (ns : Bytes) (assertions writes : List (Bytes × Bytes)) (ttl_ms : ℕ)
      (db : Db) (o : Option ℕ)
      → expiration_of w.now ttl_ms ≡ o
      → Refines w (CmpUpdate ns assertions writes ttl_ms) db (
          let (r, db') = update_expiring t w.works w.fate w.now ns assertions writes o db in
          (reply_of compared r, db'))
  unfolding update_expiring reply_of commit_if
  cmpupdate-Refines w ns assertions writes ttl_ms db none e =
      rolled_back w _ (other []) db (λ g. none-some (sym e ∙ g.2.1))
  cmpupdate-Refines w ns assertions writes ttl_ms db (some n) e = elim (Bool-cases (w.works 0)) [
    | inr a ↦ rw a (rolled_back w _ lost db (λ g. false-true (sym a ∙ g.0 0)))
    | inl a ↦ elim (Bool-cases (w.works 1)) [
      | inr b ↦ rw (a, b) (rolled_back w _ lost db (λ g. false-true (sym b ∙ g.0 1)))
      | inl b ↦ elim (check-holds t w.works 2 w.now ns assertions db) [
        | inr (c, failing) ↦ rw (a, b, c) (rolled_back w _ lost db (λ g. failing g.0))
        | inl c ↦
            rw (a, b, c)
              (committed w ns assertions writes ttl_ms n db (w.works (2 + length assertions)) e
                (λ g. g.0 (2 + length assertions)) (holds w.now ns assertions (view t db)) refl)
      ]
    ]
  ]

  found-visible :
      (now : ℕ) (o : Option Row) (r : Row)
      → o ≡ some r
      → is_live now r ≡ true
      → (v : Bytes) × (visible now o ≡ some v)
  unfolding visible
  found-visible now o r e l = (r.value, rw (e, l) refl)

  visible-found :
      (now : ℕ) (o : Option Row) (v : Bytes)
      → visible now o ≡ some v
      → (r : Row) × (o ≡ some r) × (is_live now r ≡ true)
  unfolding visible
  visible-found now none v h = absurd cc
  visible-found now (some r) v h = elim (Bool-cases (is_live now r)) [
    | inl y ↦ (r, refl, y)
    | inr n ↦ absurd (ground (arith, n, h))
  ]

  keys-visible :
      (now : ℕ) (ns start : Bytes) (end : Option Bytes) (db : Db) (l : List Bytes)
      → All
          (λ k.
            (in_range start end k ≡ true)
            × ((r : Row) × (row ns k db ≡ some r) × (is_live now r ≡ true)))
          l
      → All
          (λ k.
            (in_range start end k ≡ true) × ((v : Bytes) × (visible now (row ns k db) ≡ some v)))
          l
  keys-visible now ns start end db [] h = tt
  keys-visible now ns start end db (k ∷ l) ((i, (r, e, a)), h) =
      ((i, found-visible now (row ns k db) r e a), keys-visible now ns start end db l h)

  -- Every call on the tables is a call on the store that they stand for: it is answered as the store
  -- answers, with its whole effect, or it gives an error, with its whole effect or none; and where no
  -- statement fails and the time of expiration does not overflow, it is answered. The answer to a scan
  -- consists of keys of the range that have a value, none twice and not more than the limit; it has all
  -- such keys if it has fewer than the limit.
  pub exec-Refines :
      (w : Circumstance) (call : DataCall) (db : Db) → Refines w call db (exec t w call db)
  unfolding exec effect Kv.worker_data_get Kv.worker_data_put Kv.worker_data_delete
      Kv.worker_data_scan_keys Kv.worker_data_cmpupdate
  exec-Refines w (worker_data_get ns k) db =
      read_only w (worker_data_get ns k) got _ db (w.works 0) (λ g. g.0 0)
        (ap got (get-visible t w.now ns k db)) (Same-refl db)
  exec-Refines w (worker_data_put ns k v if_not_exists ttl_ms) db =
      put-Refines w ns k v if_not_exists ttl_ms db _ refl
  exec-Refines w (worker_data_delete ns k) db =
      confirmed w (worker_data_delete ns k) (λ _. done) tt db (delete ns k db) w.fate refl refl
        (λ ns' k'. row-delete ns k ns' k' db ∙ unfold set in refl)
  exec-Refines w (worker_data_scan_keys ns start end limit) db =
      read_only w (worker_data_scan_keys ns start end limit) keys _ db (w.works 0) (λ g. g.0 0)
        (
          select_keys ns (in_range start end) (is_live w.now) limit db,
          refl,
          select_keys-limit ns (in_range start end) (is_live w.now) limit db,
          select_keys-Distinct ns (in_range start end) (is_live w.now) limit db,
          λ short k v i e.
              let (r, f, l) = visible-found w.now (row ns k db) v e in
              select_keys-all ns (in_range start end) (is_live w.now) limit db short k r i f l,
          keys-visible w.now ns start end db _
              (select_keys-found ns (in_range start end) (is_live w.now) limit db),
        )
        (Same-refl db)
  exec-Refines w (worker_data_cmpupdate ns assertions writes ttl_ms) db =
      cmpupdate-Refines w ns assertions writes ttl_ms db _ refl
