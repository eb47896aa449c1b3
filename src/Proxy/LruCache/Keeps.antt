-- ===== src/Proxy/LruCache/Keeps.antt =====
-- What removals from a cache leave.
use summer21_rusty_workers.Prelude.{
  ◌≢◌, false, arith, ◌≡◌, ◌⊎◌, subst, ◌∙◌, inl, inr, Bool-cases, some, none,
}
use summer21_rusty_workers.Bytes.{Bytes, equals, equals→eq, equals_iff}
use summer21_rusty_workers.Proxy.LruCache.{LruCache}

pub unequal : (j k : Bytes) → equals j k ≡ false → j ≢ k
unequal j k n q = ground (arith, (equals_iff j k).1 q)

pub none-some {ℓ} : {A : Type ℓ} {a : A} → none ≡ some a → ⊥
none-some e = cc

module _ {V : Type 0} (lru : LruCache V) where
  open lru use {Cache, peek, remove, peek-remove_same, peek-remove_other}

  -- An entry is as it was, or gone.
  abbrev pub Keeps : Bytes → Cache → Cache → Type 0
  Keeps k before after = (peek k after ≡ peek k before) ⊎ (peek k after ≡ none)

  pub remove-Keeps : (j k : Bytes) (cache : Cache) → Keeps k cache (remove j cache)
  remove-Keeps j k cache = elim (Bool-cases (equals j k)) [
    | inl y ↦
        inr
          (subst (λ x. peek x (remove j cache) ≡ none) (equals→eq j k y) (peek-remove_same j cache))
    | inr n ↦ inl (peek-remove_other j k cache (unequal j k n))
  ]

  pub Keeps-trans : (k : Bytes) (a b c : Cache) → Keeps k a b → Keeps k b c → Keeps k a c
  Keeps-trans k a b c x (inr e) = inr e
  Keeps-trans k a b c (inl d) (inl e) = inl (e ∙ d)
  Keeps-trans k a b c (inr d) (inl e) = inr (e ∙ d)
