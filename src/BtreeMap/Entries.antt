-- ===== src/BtreeMap/Entries.antt =====
-- The entries of a map that is collected from a list.
use summer21_rusty_workers.Prelude.{
  ◌≡◌, ◌⊎◌, refl, ap, sym, subst, ◌∙◌, true, inl, inr, Bool-cases, List, [], ◌∷◌, Member,
}
use summer21_rusty_workers.Bytes.{Bytes, equals, equals→eq, precedes}
use summer21_rusty_workers.BtreeMap.{BtreeMap, insert, collect_into, collect}

module _ {V : Type 0} where
  insert-Member :
      (k : Bytes) (v : V) (m : BtreeMap V) (e : Bytes × V)
      → Member e (insert k v m)
      → (e ≡ (k, v)) ⊎ Member e m
  unfolding insert
  insert-Member k v [] e (inl h) = inl h
  insert-Member k v [] e (inr h) = absurd h
  insert-Member k v ((j, w) ∷ m) e h = elim (Bool-cases (equals j k)) [
    | inl y ↦ same y (rw y at h)
    | inr n ↦ elim (Bool-cases (precedes k j)) [
      | inl p ↦ (rw (n, p) at h)
      | inr p ↦ later (insert-Member k v m e) (rw (n, p) at h)
    ]
  ]
    where
      same : equals j k ≡ true → Member e ((j, v) ∷ m) → (e ≡ (k, v)) ⊎ Member e ((j, w) ∷ m)
      same y (inl q) = inl (q ∙ ap (λ x. (x, v)) (equals→eq j k y))
      same y (inr q) = inr (inr q)

      later :
          (Member e (insert k v m) → (e ≡ (k, v)) ⊎ Member e m)
          → Member e ((j, w) ∷ insert k v m)
          → (e ≡ (k, v)) ⊎ Member e ((j, w) ∷ m)
      later f (inl q) = inr (inl q)
      later f (inr q) = elim (f q) [ inl r ↦ inl r | inr r ↦ inr (inr r) ]

  collect_into-Member :
      (m : BtreeMap V) (es : List (Bytes × V)) (e : Bytes × V)
      → Member e (collect_into m es)
      → Member e m ⊎ Member e es
  unfolding collect_into
  collect_into-Member m [] e h = inl h
  collect_into-Member m ((k, v) ∷ es) e h = elim (collect_into-Member (insert k v m) es e h) [
    | inr r ↦ inr (inr r)
    | inl r ↦ elim (insert-Member k v m e r) [ inl q ↦ inr (inl q) | inr q ↦ inl q ]
  ]

  -- Each entry comes from the list.
  pub collect-Member : (es : List (Bytes × V)) (e : Bytes × V) → Member e (collect es) → Member e es
  unfolding collect
  collect-Member es e h = elim (collect_into-Member [] es e h) [ inl r ↦ absurd r | inr r ↦ r ]

  abbrev pub HasKey : Bytes → BtreeMap V → Type 0
  HasKey k m = (v : V) × Member (k, v) m

  insert-HasKey : (k : Bytes) (v : V) (m : BtreeMap V) → HasKey k (insert k v m)
  unfolding insert
  insert-HasKey k v [] = (v, inl refl)
  insert-HasKey k v ((j, w) ∷ m) = elim (Bool-cases (equals j k)) [
    | inl y ↦ rw y (v, inl (ap (λ x. (x, v)) (sym (equals→eq j k y))))
    | inr n ↦ elim (Bool-cases (precedes k j)) [
      | inl p ↦ rw (n, p) (v, inl refl)
      | inr p ↦ rw (n, p) (let (u, h) = insert-HasKey k v m in (u, inr h))
    ]
  ]

  insert-keeps :
      (k : Bytes) (v : V) (m : BtreeMap V) (i : Bytes) → HasKey i m → HasKey i (insert k v m)
  unfolding insert
  insert-keeps k v [] i (u, h) = absurd h
  insert-keeps k v ((j, w) ∷ m) i (u, h) = elim (Bool-cases (equals j k)) [
    | inl y ↦ rw y (same h)
    | inr n ↦ elim (Bool-cases (precedes k j)) [
      | inl p ↦ rw (n, p) (u, inr h)
      | inr p ↦ rw (n, p) (later (insert-keeps k v m i) h)
    ]
  ]
    where
      same : Member (i, u) ((j, w) ∷ m) → HasKey i ((j, v) ∷ m)
      same (inl q) = (v, inl (ap (λ x. (x.0, v)) q))
      same (inr q) = (u, inr q)

      later :
          (HasKey i m → HasKey i (insert k v m))
          → Member (i, u) ((j, w) ∷ m)
          → HasKey i ((j, w) ∷ insert k v m)
      later f (inl q) = (u, inl q)
      later f (inr q) = let (x, r) = f (u, q) in (x, inr r)

  collect_into-keeps :
      (m : BtreeMap V) (es : List (Bytes × V)) (i : Bytes)
      → HasKey i m
      → HasKey i (collect_into m es)
  unfolding collect_into
  collect_into-keeps m [] i h = h
  collect_into-keeps m ((k, v) ∷ es) i h =
      collect_into-keeps (insert k v m) es i (insert-keeps k v m i h)

  collect_into-HasKey :
      (m : BtreeMap V) (es : List (Bytes × V)) (k : Bytes) (v : V)
      → Member (k, v) es
      → HasKey k (collect_into m es)
  unfolding collect_into
  collect_into-HasKey m [] k v h = absurd h
  collect_into-HasKey m ((j, w) ∷ es) k v (inr h) = collect_into-HasKey (insert j w m) es k v h
  collect_into-HasKey m ((j, w) ∷ es) k v (inl h) =
      collect_into-keeps (insert j w m) es k
        (subst (λ x. HasKey x (insert j w m)) (sym (ap (λ x. x.0) h)) (insert-HasKey j w m))

  -- Each key of the list has an entry.
  pub collect-HasKey :
      (es : List (Bytes × V)) (k : Bytes) (v : V) → Member (k, v) es → HasKey k (collect es)
  unfolding collect
  collect-HasKey es k v h = collect_into-HasKey [] es k v h
