-- ===== src/Data/Routes/Lookup.antt =====
-- The lookup in the database and the lookup of the proxy.
use summer21_rusty_workers.Prelude.{
  ◌≤◌, ◌≡◌, refl, ap, sym, ◌∙◌, inl, inr, true, false, none, some, [], ◌∷◌, Member, All-Member,
  length, arith, Option-cases,
}
use summer21_rusty_workers.Bytes.{Bytes, starts_with}
use summer21_rusty_workers.BtreeMap.{BtreeMap, collect}
use summer21_rusty_workers.BtreeMap.Entries.{collect-Member, collect-HasKey}
use summer21_rusty_workers.Types
use summer21_rusty_workers.Types.{GenericResult}
use summer21_rusty_workers.Proxy.Routing.{
  lookup_submappings, LongestMatch, lookup-collect-LongestMatch, lookup_submappings-none,
}
use summer21_rusty_workers.Data.Routes.{RouteTable, is_plain, is_prefix, route_mapping_lookup}

-- Two prefixes of a text of the same length are the same.
prefixes-eq :
    (s j k : Bytes) → starts_with s j ≡ true → starts_with s k ≡ true → length j ≡ length k → j ≡ k
unfolding starts_with
prefixes-eq s [] [] hj hk e = refl
prefixes-eq s [] (y ∷ ys) hj hk e = absurd (omega arith)
prefixes-eq s (x ∷ xs) [] hj hk e = absurd (omega arith)
prefixes-eq [] (x ∷ xs) (y ∷ ys) hj hk e = cc
prefixes-eq (c ∷ s) (x ∷ xs) (y ∷ ys) hj hk e = ground (arith, prefixes-eq s xs ys)

true-false : true ≡ false → ⊥
true-false e = cc

module _ (t : RouteTable) where
  open t use {
    Db, app_of, like, select_routes, select_longest, like-prefix, select_routes-rows,
    select_longest-some, select_longest-none,
  }

  -- The routes of a domain have no characters that `like` reads otherwise.
  abbrev pub IsPlain : Bytes → Db → Type 0
  IsPlain domain db = (p a : Bytes) → app_of domain p db ≡ some a → is_plain p ≡ true

  abbrev table : Bytes → Db → BtreeMap Bytes
  table domain db = collect (select_routes domain db)

  entry-route :
      (domain p a : Bytes) (db : Db) → Member (p, a) (table domain db) → app_of domain p db ≡ some a
  entry-route domain p a db m =
      (select_routes-rows domain p a db).0 (collect-Member (select_routes domain db) (p, a) m)

  route-entry :
      (domain p a : Bytes) (db : Db)
      → app_of domain p db ≡ some a
      → (b : Bytes) × Member (p, b) (table domain db)
  route-entry domain p a db e =
      collect-HasKey (select_routes domain db) p a ((select_routes-rows domain p a db).1 e)

  missing :
      (domain path : Bytes) (db : Db)
      → IsPlain domain db
      → lookup_submappings path (table domain db) ≡ none
      → select_longest domain (is_prefix t path) db ≡ none
  missing domain path db plain e =
      elim (Option-cases (select_longest domain (is_prefix t path) db)) [
        | inl n ↦ n
        | inr (a, q) ↦
            let (p, r, c, _) = select_longest-some domain (is_prefix t path) db a q in
            let (b, m) = route-entry domain p a db r in
            let no : starts_with path p ≡ false =
              All-Member (λ x. starts_with path x.0 ≡ false) (p, b) (table domain db)
                ((lookup_submappings-none path (table domain db)).0 e) m in
            absurd (true-false (sym c ∙ like-prefix path p (plain p a r) ∙ no))
      ]

  routed :
      (domain path v : Bytes) (db : Db)
      → IsPlain domain db
      → LongestMatch path (table domain db) v
      → select_longest domain (is_prefix t path) db ≡ some v
  routed domain path v db plain l =
      let here : app_of domain l.key db ≡ some v = entry-route domain l.key v db l.is_entry in
      let cond : is_prefix t path l.key ≡ true =
        like-prefix path l.key (plain l.key v here) ∙ l.is_prefix in
      elim (Option-cases (select_longest domain (is_prefix t path) db)) [
        | inl n ↦ absurd (
            true-false (sym cond ∙ select_longest-none domain (is_prefix t path) db n l.key v here))
        | inr (a, q) ↦
            let (p, r, c, longest) = select_longest-some domain (is_prefix t path) db a q in
            let (b, m) = route-entry domain p a db r in
            let starts : starts_with path p ≡ true = sym (like-prefix path p (plain p a r)) ∙ c in
            let le : length p ≤ length l.key =
              All-Member (λ x. starts_with path x.0 ≡ true → length x.0 ≤ length l.key) (p, b)
                (table domain db) l.is_longest m starts in
            let ge : length l.key ≤ length p = longest l.key v here cond in
            let same : p ≡ l.key = prefixes-eq path p l.key starts l.is_prefix (omega arith) in
            q ∙ sym r ∙ ap (λ x. app_of domain x db) same ∙ here
      ]

  -- Where the paths of a domain have no wildcards of `like`, the lookup in the database gives the app
  -- that the proxy finds in the table that it caches of the domain.
  pub route_mapping_lookup-lookup_submappings :
      (domain path : Bytes) (db : Db)
      → IsPlain domain db
      → route_mapping_lookup t true domain path db
        ≡ Types.GenericResult.ok (lookup_submappings path (collect (select_routes domain db)))
  unfolding route_mapping_lookup
  route_mapping_lookup-lookup_submappings domain path db plain =
      elim (Option-cases (lookup_submappings path (table domain db))) [
        | inl e ↦ rw (missing domain path db plain e, e) refl
        | inr (v, e) ↦
            rw
              (
                routed domain path v db plain
                    (lookup-collect-LongestMatch path (select_routes domain db) v e),
                e,
              )
              refl
      ]
