-- ===== src/Data/Call/View.antt =====
-- The parts of a call, on the tables and on the store that they stand for.
use summer21_rusty_workers.Prelude.{
  ℕ, ◌+◌, ◌≡◌, ◌⊎◌, inl, inr, refl, ap, sym, ◌∙◌, Bool, true, false, Option, none, some, List, [],
  ◌∷◌, if◌then◌else◌, Bool-cases, arith,
}
use summer21_rusty_workers.Bytes.{Bytes, equals, equals→eq}
use summer21_rusty_workers.Data.Table.{Table, Row, same_key, kept, unless_kept}
use summer21_rusty_workers.Data.Kv.{
  is_live, is_value, value_of, put_row, check_assertions, write_all,
}
use summer21_rusty_workers.Data.Call.{Circumstance}
use summer21_rusty_workers.Data.Call.Store.{
  Store, Same, visible, set, set_all, has_value, holds, unless_visible, put,
}

pub none-some : {A : Type 0} {a : A} → none ≡ some a → ⊥
none-some e = cc

pub false-true : false ≡ true → ⊥
false-true e = cc

if_same : {A : Type 0} (b : Bool) (a : A) → (if b then a else a) ≡ a
if_same true a = refl
if_same false a = refl

module _ (t : Table) where
  open t use {
    Db, row, select_first, insert_or_update, replace_unless, delete, select_keys, select_first-row,
    row-insert, row-replace, row-delete, select_keys-found, select_keys-limit,
  }

  -- The store that a database stands for.
  abbrev pub view : Db → Store
  view db ns k = row ns k db

  value-visible : (now : ℕ) (o : Option Row) → value_of t (kept (is_live now) o) ≡ visible now o
  unfolding value_of kept visible
  value-visible now none = refl
  value-visible now (some r) = ground arith

  pub get-visible :
      (now : ℕ) (ns k : Bytes) (db : Db)
      → value_of t (select_first ns k (is_live now) db) ≡ visible now (row ns k db)
  get-visible now ns k db =
      ap (value_of t) (select_first-row ns k (is_live now) db) ∙ value-visible now (row ns k db)

  same_row :
      (ns k ns' k' : Bytes) (s : Store)
      → (if same_key ns k ns' k' then s ns k else s ns' k') ≡ s ns' k'
  same_row ns k ns' k' s = elim (Bool-cases (equals ns ns')) [
    | inr n ↦ rw n refl
    | inl y ↦ elim (Bool-cases (equals k k')) [
      | inr n ↦ rw (y, n) refl
      | inl y' ↦
          rw (equals→eq ns ns' y, equals→eq k k' y') (if_same (same_key ns' k' ns' k') (s ns' k'))
    ]
  ]

  unless-row :
      (now : ℕ) (r : Row) (o : Option Row) (s : Store) (ns k ns' k' : Bytes)
      → s ns k ≡ o
      → (if same_key ns k ns' k' then unless_kept (is_live now) r o else s ns' k')
        ≡ unless_visible (visible now o) ns k r s ns' k'
  unfolding unless_kept visible unless_visible set
  unless-row now r none s ns k ns' k' e = refl
  unless-row now r (some x) s ns k ns' k' e = elim (Bool-cases (is_live now x)) [
    | inr n ↦ rw n refl
    | inl y ↦
        rw y
          (ap (λ x. if same_key ns k ns' k' then x else s ns' k') (sym e) ∙ same_row ns k ns' k' s)
  ]

  pub put-Same :
      (w : Circumstance) (ns k : Bytes) (r : Row) (if_not_exists : Bool) (db : Db)
      → Same
          (view (put_row t ns k r if_not_exists w.later db))
          (put w ns k r if_not_exists (view db))
  unfolding put_row put set
  put-Same w ns k r false db ns' k' = row-insert ns k ns' k' r db
  put-Same w ns k r true db ns' k' =
      row-replace ns k ns' k' r (is_live w.later) db
      ∙ unless-row w.later r (row ns k db) (view db) ns k ns' k' refl

  pub write_all-Same :
      (ns : Bytes) (expiration : ℕ) (writes : List (Bytes × Bytes)) (db : Db) (s : Store)
      → Same (view db) s
      → Same (view (write_all t ns expiration writes db)) (set_all ns expiration writes s)
  unfolding write_all set_all set
  write_all-Same ns expiration [] db s h = h
  write_all-Same ns expiration ((k, v) ∷ writes) db s h =
      let r : Row = record { value = v; expiration = expiration } in
      write_all-Same ns expiration writes (insert_or_update ns k r db) _ (λ ns' k'.
        row-insert ns k ns' k' r db
        ∙ ap (λ o. if same_key ns k ns' k' then some r else o) (h ns' k'))

  -- An assertion holds where its row is found.
  abbrev is_some : Option Row → Bool
  is_some none = false
  is_some (some r) = true

  assertion-has_value :
      (now : ℕ) (v : Bytes) (o : Option Row)
      → is_some (kept (is_value now v) o) ≡ has_value v (visible now o)
  unfolding kept has_value visible
  assertion-has_value now v none = refl
  assertion-has_value now v (some r) = ground arith

  guarded :
      {N : Type 0} (b : Bool) (rest : Option Bool) (h : Bool)
      → (rest ≡ some h) ⊎ ((rest ≡ none) × N)
      → ((if b then rest else some false) ≡ some (if b then h else false))
        ⊎ (((if b then rest else some false) ≡ none) × N)
  guarded true rest h e = e
  guarded false rest h e = inl refl

  found_or :
      (o : Option Row) (rest : Option Bool)
      → (elim o [ none ↦ some false | some r ↦ rest ]) ≡ (if is_some o then rest else some false)
  found_or none rest = refl
  found_or (some r) rest = refl

  pub check-holds :
      (works : ℕ → Bool) (i now : ℕ) (ns : Bytes) (assertions : List (Bytes × Bytes)) (db : Db)
      → (check_assertions t works i now ns assertions db ≡ some (holds now ns assertions (view db)))
        ⊎ ((check_assertions t works i now ns assertions db ≡ none) × ¬ ((j : ℕ) → works j ≡ true))
  unfolding check_assertions holds
  check-holds works i now ns [] db = inl refl
  check-holds works i now ns ((k, v) ∷ assertions) db =
      let found : is_some (select_first ns k (is_value now v) db)
          ≡ has_value v (visible now (row ns k db)) =
        ap is_some (select_first-row ns k (is_value now v) db)
        ∙ assertion-has_value now v (row ns k db) in
      elim (Bool-cases (works i)) [
        | inr n ↦ rw n (inr (refl, λ h. ground (arith, h i)))
        | inl y ↦
            rw
              (
                y,
                found_or (select_first ns k (is_value now v) db)
                    (check_assertions t works (i + 1) now ns assertions db),
                found,
              )
              (guarded (has_value v (visible now (row ns k db))) _ _
                (check-holds works (i + 1) now ns assertions db))
      ]
