-- ===== src/Proxy/Apps/Current.antt =====
-- The cached apps keep the limits of the proxy, and a pass removes those that have changed.
use summer21_rusty_workers.Prelude.{
  some-inj, ◌≡◌, ℕ, refl, sym, subst, ◌∙◌, true, inl, inr, Option, none, some, arith, Bool-cases,
}
use summer21_rusty_workers.Bytes.{Bytes, equals, equals→eq}
use summer21_rusty_workers.Types.{WorkerConfiguration}
use summer21_rusty_workers.Proxy.State.{AppState}
use summer21_rusty_workers.Proxy.LruCache.{LruCache}
use summer21_rusty_workers.Proxy.LruCache.Keeps.{unequal}
use summer21_rusty_workers.Proxy.RouteCache.Flush.{same_table→eq}
use summer21_rusty_workers.Proxy.Apps.{
  AppConfig, Database, decode_kv_namespaces, target_config, new_state, same_app, store_app,
  fetch_app, unless_there, do_lookup_app_background,
}

-- An app has its own id, and of the configuration only what its owner may choose is not the proxy's.
pub record Governed (worker_config : WorkerConfiguration) (id : Bytes) (app : AppState)
    : Type 0 where
  pub own_id : app.id ≡ id
  pub same_limits : app.config.executor ≡ worker_config.executor
  pub same_service : app.config.fetch_service ≡ worker_config.fetch_service

-- The app is as the database says.
pub record Matches (config : AppConfig) (app : AppState) : Type 0 where
  same_bundle : app.bundle_id ≡ config.bundle_id
  same_env : app.config.env ≡ config.env
  same_namespaces : app.config.kv_namespaces ≡ decode_kv_namespaces config.kv_namespaces

new_state-Governed :
    (worker_config : WorkerConfiguration) (now : ℕ) (id : Bytes) (config : AppConfig)
    (bundle : Bytes)
    → Governed worker_config id (new_state worker_config now id config bundle)
unfolding new_state target_config
new_state-Governed worker_config now id config bundle = record {
  own_id = refl;
  same_limits = refl;
  same_service = refl;
}

pub same_app-Matches :
    (config : AppConfig) (app : AppState)
    → same_app config app.bundle_id app.config ≡ true
    → Matches config app
unfolding same_app
same_app-Matches config app h = record {
  same_bundle = sym (equals→eq _ _ (ground arith));
  same_env = sym (same_table→eq _ _ (ground arith));
  same_namespaces = sym (same_table→eq _ _ (ground arith));
}

module _ (lru : LruCache AppState) where
  open lru use {
    Cache, peek, get, insert, remove, get-found, peek-get, peek-insert_same, peek-insert_other,
    peek-remove_same, peek-remove_other,
  }

  abbrev pub IsGoverned : WorkerConfiguration → Cache → Type 0
  IsGoverned worker_config cache =
      (id : Bytes) (app : AppState) → peek id cache ≡ some app → Governed worker_config id app

  insert-IsGoverned :
      (worker_config : WorkerConfiguration) (k : Bytes) (app : AppState) (cache : Cache)
      → Governed worker_config k app
      → IsGoverned worker_config cache
      → IsGoverned worker_config (insert k app cache)
  insert-IsGoverned worker_config k app cache g h id a e = elim (Bool-cases (equals k id)) [
    | inl y ↦
        let same : k ≡ id = equals→eq k id y in
        let there : peek k (insert k app cache) ≡ some a =
          subst (λ x. peek x (insert k app cache) ≡ some a) (sym same) e in
        let it : app ≡ a = some-inj (sym (peek-insert_same k app cache) ∙ there) in
        subst (λ x. Governed worker_config x a) same (subst (Governed worker_config k) it g)
    | inr n ↦ elim (peek-insert_other k id app cache (unequal k id n)) [
      | inl kept ↦ h id a (sym kept ∙ e)
      | inr gone ↦ absurd (ground arith)
    ]
  ]

  fetch-IsGoverned :
      (worker_config : WorkerConfiguration) (db : Database) (now : ℕ) (id : Bytes)
      (found : Option (Option AppConfig)) (cache : Cache)
      → IsGoverned worker_config cache
      → IsGoverned worker_config (fetch_app lru worker_config db now id found cache)
  unfolding fetch_app
  fetch-IsGoverned worker_config db now id none cache h = h
  fetch-IsGoverned worker_config db now id (some none) cache h = h
  fetch-IsGoverned worker_config db now id (some (some config)) cache h =
      store (db.bundle config.bundle_id)
    where
      store :
          (bundle : Option (Option Bytes))
          → IsGoverned worker_config (store_app lru worker_config now id config bundle cache)
      store none = unfold store_app in h
      store (some none) = unfold store_app in h
      store (some (some b)) =
          unfold store_app in
          insert-IsGoverned worker_config id _ cache
            (new_state-Governed worker_config now id config b) h

  unless-IsGoverned :
      (worker_config : WorkerConfiguration) (db : Database) (now : ℕ) (id : Bytes)
      (r : Option AppState × Cache)
      → IsGoverned worker_config r.1
      → IsGoverned worker_config (unless_there lru worker_config db now id r)
  unfolding unless_there
  unless-IsGoverned worker_config db now id (some app, cache) h = h
  unless-IsGoverned worker_config db now id (none, cache) h =
      fetch-IsGoverned worker_config db now id (db.metadata id) cache h

  -- Whatever the database says of an app, the app that is cached has its own id, and the limits and
  -- the fetch service of the proxy's configuration.
  pub do_lookup_app_background-IsGoverned :
      (worker_config : WorkerConfiguration) (db : Database) (now : ℕ) (id : Bytes) (cache : Cache)
      → IsGoverned worker_config cache
      → IsGoverned worker_config (do_lookup_app_background lru worker_config db now id cache)
  unfolding do_lookup_app_background
  do_lookup_app_background-IsGoverned worker_config db now id cache h =
      unless-IsGoverned worker_config db now id (get id cache)
        (λ i a e. h i a (sym (peek-get id i cache) ∙ e))
