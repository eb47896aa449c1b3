-- ===== src/Data/Apps/RoundTrip.antt =====
-- Storing, removing and reading the configuration of an app.
use summer21_rusty_workers.Prelude.{
  ◌≡◌, ap, subst, ◌∙◌, true, none, some, if◌then◌else◌, Bool-cases, inl, inr,
}
use summer21_rusty_workers.Bytes.{Bytes, equals, equals→eq}
use summer21_rusty_workers.Types
use summer21_rusty_workers.Types.{GenericResult}
use summer21_rusty_workers.Proxy.Apps.{AppConfig}
use summer21_rusty_workers.Data.Kv.{executed}
use summer21_rusty_workers.Data.Routes.{confirmed}
use summer21_rusty_workers.Data.Apps.{
  AppTable, Json, parsed, config_of, app_metadata_get, row_of, app_metadata_put,
  app_metadata_delete,
}

module _ (t : AppTable) (json : Json) where
  open t use {Db, select, select-insert, select-delete}

  config_of-row :
      (config : AppConfig)
      → config_of t json config.id (some (row_of t json config))
        ≡ Types.GenericResult.ok (some config)
  unfolding config_of row_of
  config_of-row config =
      ap
        (λ o.
          parsed t json config.id (row_of t json config) o
            (json.namespaces_from_str (json.namespaces_to_string config.kv_namespaces)))
        (json.env-written config.env)
      ∙ ap (parsed t json config.id (row_of t json config) (some config.env))
          (json.namespaces-written config.kv_namespaces)

  put-get :
      (config : AppConfig) (k : Bytes) (db : Db)
      → config_of t json k (select k (t.insert_or_update config.id (row_of t json config) db)) ≡ (
          if equals config.id k
          then Types.GenericResult.ok (some config)
          else config_of t json k (select k db))
  put-get config k db = elim (Bool-cases (equals config.id k)) [
    | inl y ↦ rw y (
        ap (config_of t json k) (
          select-insert config.id k (row_of t json config) db
          ∙ ap (λ b. if b then some (row_of t json config) else select k db) y)
        ∙ subst
            (λ x.
              config_of t json x (some (row_of t json config))
              ≡ Types.GenericResult.ok (some config))
            (equals→eq config.id k y) (config_of-row config))
    | inr n ↦ rw n (
        ap (config_of t json k) (
          select-insert config.id k (row_of t json config) db
          ∙ ap (λ b. if b then some (row_of t json config) else select k db) n))
  ]

  delete-get :
      (id k : Bytes) (db : Db)
      → config_of t json k (select k (t.delete id db))
        ≡ (if equals id k then Types.GenericResult.ok none else config_of t json k (select k db))
  unfolding config_of
  delete-get id k db = elim (Bool-cases (equals id k)) [
    | inl y ↦ rw y (
        ap (config_of t json k)
          (select-delete id k db ∙ ap (λ b. if b then none else select k db) y))
    | inr n ↦ rw n (
        ap (config_of t json k)
          (select-delete id k db ∙ ap (λ b. if b then none else select k db) n))
  ]

  -- After a statement that is executed, and with a connection that works: the configuration that was put is
  -- read under its id, after a removal there is none, and what is read under any other id is what
  -- was read before.
  pub app_metadata-put-get :
      (config : AppConfig) (k : Bytes) (db : Db)
      → (app_metadata_get t json true k (app_metadata_put t json executed config db).1 ≡ (
          if equals config.id k
          then Types.GenericResult.ok (some config)
          else app_metadata_get t json true k db))
        × (app_metadata_get t json true k (app_metadata_delete t json executed config.id db).1 ≡ (
            if equals config.id k
            then Types.GenericResult.ok none
            else app_metadata_get t json true k db))
  unfolding app_metadata_get app_metadata_put app_metadata_delete confirmed
  app_metadata-put-get config k db = (put-get config k db, delete-get config.id k db)
