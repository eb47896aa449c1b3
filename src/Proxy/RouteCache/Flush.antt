-- ===== src/Proxy/RouteCache/Flush.antt =====
-- What a pass of `route_cache_gc_task` leaves in the cache.
use summer21_rusty_workers.Prelude.{
  some-inj, ◌≡◌, refl, sym, subst, ◌∙◌, true, inl, inr, Option, none, some, List, [], ◌∷◌, arith,
  Bool-cases, Member,
}
use summer21_rusty_workers.Bytes.{Bytes, equals_iff, equals_refl}
use summer21_rusty_workers.BtreeMap.{collect}
use summer21_rusty_workers.Proxy.LruCache.{LruCache}
use summer21_rusty_workers.Proxy.LruCache.Keeps.{Keeps, remove-Keeps, Keeps-trans, none-some}
use summer21_rusty_workers.Proxy.RouteCache.{
  Table, Database, same_table, flush, check_domain, check_domains,
}
use summer21_rusty_workers.Proxy.RouteCache.Coherent.{Fresh}

pub same_table→eq : (m n : Table) → same_table m n ≡ true → m ≡ n
unfolding same_table
same_table→eq [] [] h = refl
same_table→eq [] (y ∷ ys) h = cc
same_table→eq (x ∷ xs) [] h = cc
same_table→eq ((j, v) ∷ xs) ((k, w) ∷ ys) h =
    ground (arith, same_table→eq xs ys, equals_iff j k, equals_iff v w)

same_table_refl : (m : Table) → same_table m m ≡ true
unfolding same_table
same_table_refl [] = refl
same_table_refl ((j, v) ∷ m) = ground (arith, same_table_refl m, equals_refl j, equals_refl v)

module _ (lru : LruCache Table) where
  open lru use {Cache, peek, remove, peek-remove_same, peek-remove_other}

  flush-Fresh :
      (db : Database) (domain : Bytes) (rows : List (Bytes × Bytes)) (entry : Option Table)
      (cache : Cache)
      → db domain ≡ some rows
      → peek domain cache ≡ entry
      → Fresh lru db (flush lru domain (some rows) entry cache) domain
  unfolding flush
  flush-Fresh db domain rows none cache q p m e = absurd (ground arith)
  flush-Fresh db domain rows (some entry) cache q p m e =
      elim (Bool-cases (same_table entry (collect rows))) [
        | inl y ↦ (rows, q, some-inj (sym (rw y at e) ∙ p) ∙ same_table→eq entry (collect rows) y)
        | inr n ↦ absurd (none-some (sym (peek-remove_same domain cache) ∙ (rw n at e)))
      ]

  flush-Keeps :
      (j k : Bytes) (rows : Option (List (Bytes × Bytes))) (entry : Option Table) (cache : Cache)
      → Keeps lru k cache (flush lru j rows entry cache)
  unfolding flush
  flush-Keeps j k none entry cache = inl refl
  flush-Keeps j k (some rows) none cache = inl refl
  flush-Keeps j k (some rows) (some entry) cache =
      elim (Bool-cases (same_table entry (collect rows))) [
        | inl y ↦ rw y (inl refl)
        | inr n ↦ rw n (remove-Keeps lru j k cache)
      ]

  check_domains-Keeps :
      (db : Database) (k : Bytes) (domains : List Bytes) (cache : Cache)
      → Keeps lru k cache (check_domains lru db domains cache)
  unfolding check_domains check_domain
  check_domains-Keeps db k [] cache = inl refl
  check_domains-Keeps db k (d ∷ domains) cache =
      Keeps-trans lru k cache _ _ (flush-Keeps d k (db d) (peek d cache) cache)
        (check_domains-Keeps db k domains (check_domain lru db d cache))

  Keeps-Fresh :
      (db : Database) (k : Bytes) (a b : Cache)
      → Keeps lru k a b
      → Fresh lru db a k
      → Fresh lru db b k
  Keeps-Fresh db k a b (inl e) f m p = f m (sym e ∙ p)
  Keeps-Fresh db k a b (inr e) f m p = absurd (none-some (sym e ∙ p))

  check_domain-Fresh :
      (db : Database) (k : Bytes) (rows : List (Bytes × Bytes)) (cache : Cache)
      → db k ≡ some rows
      → Fresh lru db (check_domain lru db k cache) k
  unfolding check_domain
  check_domain-Fresh db k rows cache q =
      subst (λ r. Fresh lru db (flush lru k r (peek k cache) cache) k) (sym q)
        (flush-Fresh db k rows (peek k cache) cache q refl)

  -- After a pass with any state of the database, the entry of a domain that was looked at and that the
  -- database answers for is gone or the table of its rows; and no entry is changed otherwise.
  pub check_domains-Fresh :
      (db : Database) (domains : List Bytes) (cache : Cache) (k : Bytes)
      → ((rows : List (Bytes × Bytes))
          → Member k domains
          → db k ≡ some rows
          → Fresh lru db (check_domains lru db domains cache) k)
        × Keeps lru k cache (check_domains lru db domains cache)
  unfolding check_domains
  check_domains-Fresh db domains cache k =
      (fresh domains cache, check_domains-Keeps db k domains cache)
    where
      fresh :
          (domains : List Bytes) (cache : Cache) (rows : List (Bytes × Bytes))
          → Member k domains
          → db k ≡ some rows
          → Fresh lru db (check_domains lru db domains cache) k
      fresh [] cache rows h q = absurd h
      fresh (d ∷ ds) cache rows (inl e) q =
          Keeps-Fresh db k (check_domain lru db d cache) _
            (check_domains-Keeps db k ds (check_domain lru db d cache))
            (subst (λ x. Fresh lru db (check_domain lru db x cache) k) e
              (check_domain-Fresh db k rows cache q))
      fresh (d ∷ ds) cache rows (inr h) q = fresh ds (check_domain lru db d cache) rows h q
