-- ===== src/Proxy/Apps/Changed.antt =====
-- What a pass of `apps_gc_task` leaves in the cache.
use summer21_rusty_workers.Prelude.{
  ◌≡◌, refl, ap, sym, subst, ◌∙◌, inl, inr, Option, none, some, List, [], ◌∷◌, Bool-cases, Member,
}
use summer21_rusty_workers.Bytes.{Bytes}
use summer21_rusty_workers.Proxy.State.{AppState}
use summer21_rusty_workers.Proxy.LruCache.{LruCache}
use summer21_rusty_workers.Proxy.LruCache.Keeps.{Keeps, Keeps-trans, remove-Keeps, none-some}
use summer21_rusty_workers.Proxy.Apps.{
  AppConfig, Database, same_app, Seen, remove_changed, check_apps,
}
use summer21_rusty_workers.Proxy.Apps.Current.{Matches, same_app-Matches}

module _ (lru : LruCache AppState) where
  open lru use {Cache, peek, remove, peek-remove_same}

  -- What was copied of an app is what the cache has, if it has the app.
  abbrev pub SeenIn : Cache → Seen → Type 0
  SeenIn cache seen =
      (app : AppState)
      → peek seen.0 cache ≡ some app
      → (app.bundle_id ≡ seen.1) × (app.config ≡ seen.2)

  -- The app is in the database, and as it says.
  abbrev pub UpToDate : Option AppConfig → AppState → Type 0
  UpToDate found app = (config : AppConfig) × (found ≡ some config) × Matches config app

  remove_changed-Keeps :
      (k : Bytes) (seen : Seen) (found : Option (Option AppConfig)) (cache : Cache)
      → Keeps lru k cache (remove_changed lru seen found cache)
  unfolding remove_changed
  remove_changed-Keeps k (id, bundle_id, config) none cache = inl refl
  remove_changed-Keeps k (id, bundle_id, config) (some none) cache = remove-Keeps lru id k cache
  remove_changed-Keeps k (id, bundle_id, config) (some (some c)) cache =
      elim (Bool-cases (same_app c bundle_id config)) [
        | inl y ↦ rw y (inl refl)
        | inr n ↦ rw n (remove-Keeps lru id k cache)
      ]

  check_apps-Keeps :
      (db : Database) (k : Bytes) (apps : List Seen) (cache : Cache)
      → Keeps lru k cache (check_apps lru db apps cache)
  unfolding check_apps
  check_apps-Keeps db k [] cache = inl refl
  check_apps-Keeps db k (seen ∷ apps) cache =
      Keeps-trans lru k cache _ _ (remove_changed-Keeps k seen (db.metadata seen.0) cache)
        (check_apps-Keeps db k apps (remove_changed lru seen (db.metadata seen.0) cache))

  back :
      (k : Bytes) (a b : Cache) (app : AppState)
      → Keeps lru k a b
      → peek k b ≡ some app
      → peek k a ≡ some app
  back k a b app (inl e) p = sym e ∙ p
  back k a b app (inr e) p = absurd (none-some (sym e ∙ p))

  removed-UpToDate :
      (seen : Seen) (found : Option AppConfig) (cache : Cache) (app : AppState)
      → SeenIn cache seen
      → peek seen.0 (remove_changed lru seen (some found) cache) ≡ some app
      → UpToDate found app
  unfolding remove_changed
  removed-UpToDate (id, bundle_id, config) none cache app h p =
      absurd (none-some (sym (peek-remove_same id cache) ∙ p))
  removed-UpToDate (id, bundle_id, config) (some c) cache app h p =
      elim (Bool-cases (same_app c bundle_id config)) [
        | inl y ↦ let (b, w) = h app (rw y at p) in (c, refl, same_app-Matches c app (rw (b, w) y))
        | inr n ↦ absurd (none-some (sym (peek-remove_same id cache) ∙ (rw n at p)))
      ]

  -- After a pass over apps as they are in the cache, each of them that the database answers for is
  -- gone, or in the database with the same bundle, environment and namespaces.
  pub check_apps-UpToDate :
      (db : Database) (apps : List Seen) (cache : Cache) (seen : Seen) (found : Option AppConfig)
      (app : AppState)
      → Member seen apps
      → db.metadata seen.0 ≡ some found
      → SeenIn cache seen
      → peek seen.0 (check_apps lru db apps cache) ≡ some app
      → UpToDate found app
  unfolding check_apps
  check_apps-UpToDate db [] cache seen found app m q h p = absurd m
  check_apps-UpToDate db (s ∷ apps) cache seen found app (inr m) q h p =
      let after = remove_changed lru s (db.metadata s.0) cache in
      check_apps-UpToDate db apps after seen found app m q
        (λ a e.
          h a (back seen.0 cache after a (remove_changed-Keeps seen.0 s (db.metadata s.0) cache) e))
        p
  check_apps-UpToDate db (s ∷ apps) cache seen found app (inl e) q h p =
      let after = remove_changed lru s (db.metadata s.0) cache in
      let at_s : peek s.0 (check_apps lru db apps after) ≡ some app =
        subst (λ x. peek x.0 (check_apps lru db apps after) ≡ some app) e p in
      let there : peek s.0 after ≡ some app =
        back s.0 after _ app (check_apps-Keeps db s.0 apps after) at_s in
      removed-UpToDate s found cache app (subst (SeenIn cache) e h) (
        subst (λ d. peek s.0 (remove_changed lru s d cache) ≡ some app)
          (ap (λ x. db.metadata x.0) (sym e) ∙ q) there)
