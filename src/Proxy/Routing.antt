-- ===== src/Proxy/Routing.antt =====
-- `lookup_submappings` of rusty-workers-proxy/src/sched.rs, and the table that
-- `do_lookup_route_background` builds for it from the rows of the database.
mod Tests
use mathlib.Core.List.{reverse, reverse-cons}
use summer21_rusty_workers.Prelude.{
  ◌≤◌, ◌≡◌, ◌↔◌, inl, inr, refl, subst, true, false, Option, none, some, List, [], ◌∷◌, ◌++◌, arith,
  length, All, Member, if◌then◌else◌, Bool-cases, Option-cases, All-Member,
}
use summer21_rusty_workers.Bytes.{Bytes, starts_with, prefix_order, precedes}
use summer21_rusty_workers.BtreeMap.{BtreeMap, collect, collect-IsSorted, Above, IsSorted}

module _ {V : Type 0} where
  -- the `for` loop with its early return
  unfoldable pub first_match : Bytes → List (Bytes × V) → Option V
  first_match path [] = none
  first_match path ((k, v) ∷ es) = if starts_with path k then some v else first_match path es

  -- fn lookup_submappings
  unfoldable pub lookup_submappings : Bytes → BtreeMap V → Option V
  unfolding first_match
  lookup_submappings path submappings = first_match path (reverse submappings)

  -- The entry whose key is the longest prefix of the path.
  pub record LongestMatch (path : Bytes) (m : BtreeMap V) (v : V) : Type 0 where
    pub key : Bytes
    pub is_entry : Member (key, v) m
    pub is_prefix : starts_with path key ≡ true
    pub is_longest : All (λ e. starts_with path e.0 ≡ true → length e.0 ≤ length key) m

  abbrev or_else : Option V → Option V → Option V
  or_else (some v) o = some v
  or_else none o = o

  first_match-append :
      (path : Bytes) (xs ys : List (Bytes × V))
      → first_match path (xs ++ ys) ≡ or_else (first_match path xs) (first_match path ys)
  unfolding first_match
  first_match-append path [] ys = refl
  first_match-append path ((k, v) ∷ xs) ys = ground (arith, first_match-append path xs ys)

  lookup_submappings-cons :
      (path k : Bytes) (v : V) (m : BtreeMap V)
      → lookup_submappings path ((k, v) ∷ m)
        ≡ or_else (lookup_submappings path m) (if starts_with path k then some v else none)
  unfolding lookup_submappings
  lookup_submappings-cons path k v m =
      rw (reverse-cons (k, v) m) (first_match-append path (reverse m) ((k, v) ∷ []))

  lookup_submappings-nil : (path : Bytes) → lookup_submappings path [] ≡ none
  unfolding lookup_submappings
  lookup_submappings-nil path = refl

  -- Where nothing behind matches, the entries behind are no longer.
  none_longer :
      (path k : Bytes) (m : BtreeMap V)
      → lookup_submappings path m ≡ none
      → All (λ e. starts_with path e.0 ≡ true → length e.0 ≤ length k) m
  none_longer path k [] h = tt
  none_longer path k ((j, w) ∷ m) h = (
    ground (arith, lookup_submappings-cons path j w m),
    none_longer path k m (ground (arith, lookup_submappings-cons path j w m)),
  )

  Above-key :
      (k j : Bytes) (v : V) (m : BtreeMap V) → Above k m → Member (j, v) m → precedes k j ≡ true
  Above-key k j v m a e = All-Member (λ e. precedes k e.0 ≡ true) (j, v) m a e

  longest-cons :
      (path k : Bytes) (w v : V) (m : BtreeMap V)
      → Above k m
      → LongestMatch path m v
      → LongestMatch path ((k, w) ∷ m) v
  longest-cons path k w v m a l = record {
    key = l.key;
    is_entry = inr l.is_entry;
    is_prefix = l.is_prefix;
    is_longest = (
      λ p.
          omega
            (arith, prefix_order path k l.key p l.is_prefix (Above-key k l.key v m a l.is_entry)),
      l.is_longest,
    );
  }

  longest_head :
      (path k : Bytes) (v : V) (m : BtreeMap V)
      → lookup_submappings path m ≡ none
      → starts_with path k ≡ true
      → LongestMatch path ((k, v) ∷ m) v
  longest_head path k v m h p = record {
    key = k;
    is_entry = inl refl;
    is_prefix = p;
    is_longest = (λ _. omega arith, none_longer path k m h);
  }

  lookup_submappings-LongestMatch :
      (path : Bytes) (m : BtreeMap V) (v : V)
      → IsSorted m
      → lookup_submappings path m ≡ some v
      → LongestMatch path m v
  lookup_submappings-LongestMatch path [] v s h =
      absurd (ground (arith, lookup_submappings-nil path))
  lookup_submappings-LongestMatch path ((k, w) ∷ m) v s h =
      elim (Option-cases (lookup_submappings path m)) [
        | inr (u, e) ↦ longest-cons path k w v m s.0 (
            lookup_submappings-LongestMatch path m v s.1
              (ground (arith, lookup_submappings-cons path k w m)))
        | inl e ↦ elim (Bool-cases (starts_with path k)) [
          | inl p ↦
              subst (LongestMatch path ((k, w) ∷ m))
                (ground (arith, lookup_submappings-cons path k w m)) (longest_head path k w m e p)
          | inr p ↦ absurd (ground (arith, lookup_submappings-cons path k w m))
        ]
      ]

  none→no_prefix :
      (path : Bytes) (m : BtreeMap V)
      → lookup_submappings path m ≡ none
      → All (λ e. starts_with path e.0 ≡ false) m
  none→no_prefix path [] h = tt
  none→no_prefix path ((k, v) ∷ m) h = (
    ground (arith, lookup_submappings-cons path k v m),
    none→no_prefix path m (ground (arith, lookup_submappings-cons path k v m)),
  )

  no_prefix→none :
      (path : Bytes) (m : BtreeMap V)
      → All (λ e. starts_with path e.0 ≡ false) m
      → lookup_submappings path m ≡ none
  no_prefix→none path [] h = lookup_submappings-nil path
  no_prefix→none path ((k, v) ∷ m) h =
      ground (arith, lookup_submappings-cons path k v m, no_prefix→none path m h.1)

  -- In the table collected from any rows, the app that a path is routed to is that of an entry
  -- whose prefix the path starts with, and no entry with a longer such prefix exists.
  pub lookup-collect-LongestMatch :
      (path : Bytes) (rows : List (Bytes × V)) (v : V)
      → lookup_submappings path (collect rows) ≡ some v
      → LongestMatch path (collect rows) v
  lookup-collect-LongestMatch path rows v h =
      lookup_submappings-LongestMatch path (collect rows) v (collect-IsSorted rows) h

  -- A path is routed nowhere exactly when no prefix of the table is one of its prefixes.
  pub lookup_submappings-none :
      (path : Bytes) (m : BtreeMap V)
      → (lookup_submappings path m ≡ none) ↔ All (λ e. starts_with path e.0 ≡ false) m
  lookup_submappings-none path m = (none→no_prefix path m, no_prefix→none path m)
