-- ===== src/Data/Routes/Tests.antt =====
-- A domain with a route at its root and one under a directory; a database is the pair of their apps.
use summer21_rusty_workers.Prelude.{
  ℕ, ◌≤◌, ◌≡◌, refl, ap, sym, subst, ◌∙◌, ◌⊎◌, inl, inr, Bool, true, false, Option, none, some,
  List, [], ◌∷◌, ◌++◌, Member, length, if◌then◌else◌, Bool-cases, arith,
}
use summer21_rusty_workers.Bytes.{Bytes, equals, equals→eq, starts_with}
use summer21_rusty_workers.BtreeMap.{collect}
use summer21_rusty_workers.Types
use summer21_rusty_workers.Types.{GenericResult}
use summer21_rusty_workers.Proxy.Routing.{lookup_submappings}
use summer21_rusty_workers.Data.Routes.{RouteTable, is_plain, route_mapping_lookup}
use summer21_rusty_workers.Data.Routes.Lookup.{IsPlain, route_mapping_lookup-lookup_submappings}

abbrev root : Bytes
root = b'/' ∷ []

abbrev api : Bytes
api = b'/' ∷ b'a' ∷ []

-- Drops the last byte of a pattern.
init : Bytes → Bytes
init [] = []
init (x ∷ []) = []
init (x ∷ y ∷ ys) = let rest = init (y ∷ ys) in x ∷ rest

init-append : (xs : Bytes) (y : ℕ) → init (xs ++ y ∷ []) ≡ xs
unfolding init
init-append [] y = refl
init-append (x ∷ []) y = refl
init-append (x ∷ x' ∷ xs) y = ap (λ l. x ∷ l) (init-append (x' ∷ xs) y)

route_of : Bytes → Bytes × Bytes → Option Bytes
route_of p (a, b) = if equals p root then some a else if equals p api then some b else none

-- The longer path comes first.
longest_of : (Bytes → Bool) → Bytes × Bytes → Option Bytes
longest_of q (a, b) = if q api then some b else if q root then some a else none

routes_of : Bytes × Bytes → List (Bytes × Bytes)
routes_of (a, b) = (root, a) ∷ (api, b) ∷ []

none-some : {x : Bytes} → none ≡ some x → ⊥
none-some e = cc

true-false : true ≡ false → ⊥
true-false e = cc

pair-eq : {p p' x x' : Bytes} → p ≡ p' → x ≡ x' → ◌≡◌ {A = Bytes × Bytes} (p, x) (p', x')
pair-eq e f = rw (e, f) refl

some-eq : {x y : Bytes} → some x ≡ some y → x ≡ y
some-eq e = ground arith

row-route :
    (p x : Bytes) (db : Bytes × Bytes) → Member (p, x) (routes_of db) → route_of p db ≡ some x
unfolding routes_of route_of equals
row-route p x (a, b) (inl e) =
    subst (λ y. route_of y (a, b) ≡ some x) (sym (ap (λ y. y.0) e))
      (ap some (sym (ap (λ y. y.1) e)))
row-route p x (a, b) (inr (inl e)) =
    subst (λ y. route_of y (a, b) ≡ some x) (sym (ap (λ y. y.0) e))
      (ap some (sym (ap (λ y. y.1) e)))
row-route p x (a, b) (inr (inr h)) = absurd h

route-row :
    (p x : Bytes) (db : Bytes × Bytes) → route_of p db ≡ some x → Member (p, x) (routes_of db)
unfolding routes_of route_of
route-row p x (a, b) e = elim (Bool-cases (equals p root)) [
  | inl y ↦ inl (pair-eq (equals→eq p root y) (sym (some-eq (rw y at e))))
  | inr n ↦ elim (Bool-cases (equals p api)) [
    | inl y ↦ inr (inl (pair-eq (equals→eq p api y) (sym (some-eq (rw (n, y) at e)))))
    | inr n' ↦ absurd (none-some (rw (n, n') at e))
  ]
]

-- A route is one of the two.
route-cases : (p x : Bytes) (db : Bytes × Bytes) → route_of p db ≡ some x → (p ≡ root) ⊎ (p ≡ api)
unfolding routes_of
route-cases p x (a, b) e = elim (route-row p x (a, b) e) [
  | inl q ↦ inl (ap (λ y. y.0) q)
  | inr (inl q) ↦ inr (ap (λ y. y.0) q)
  | inr (inr h) ↦ absurd h
]

longest-some :
    (q : Bytes → Bool) (db : Bytes × Bytes) (x : Bytes)
    → longest_of q db ≡ some x
    → (p : Bytes) × (route_of p db ≡ some x)
      × (q p ≡ true)
      × ((p' x' : Bytes) → route_of p' db ≡ some x' → q p' ≡ true → length p' ≤ length p)
unfolding longest_of route_of equals
longest-some q (a, b) x e = elim (Bool-cases (q api)) [
  | inl y ↦ (
    api,
    (rw y at e),
    y,
    λ p' x' r t. elim (route-cases p' x' (a, b) r) [
      | inl h ↦ rw h (omega arith)
      | inr h ↦ rw h (omega arith)
    ],
  )
  | inr n ↦ elim (Bool-cases (q root)) [
    | inl y ↦ (
      root,
      (rw (n, y) at e),
      y,
      λ p' x' r t. elim (route-cases p' x' (a, b) r) [
        | inl h ↦ rw h (omega arith)
        | inr h ↦ absurd (true-false (sym (rw h at t) ∙ n))
      ],
    )
    | inr n' ↦ absurd (none-some (rw (n, n') at e))
  ]
]

longest-none :
    (q : Bytes → Bool) (db : Bytes × Bytes)
    → longest_of q db ≡ none
    → (p x : Bytes) → route_of p db ≡ some x
    → q p ≡ false
unfolding longest_of
longest-none q (a, b) e p x r = elim (Bool-cases (q api)) [
  | inl y ↦ absurd (none-some (sym (rw y at e)))
  | inr n ↦ elim (Bool-cases (q root)) [
    | inl y ↦ absurd (none-some (sym (rw (n, y) at e)))
    | inr n' ↦ elim (route-cases p x (a, b) r) [ inl h ↦ rw h n' | inr h ↦ rw h n ]
  ]
]

abbrev table : RouteTable
table = record {
  Db = Bytes × Bytes;
  app_of = λ d p db. route_of p db;
  like = λ text pattern. starts_with text (init pattern);
  select_routes = λ d db. routes_of db;
  select_longest = λ d q db. longest_of q db;
  like-prefix = λ text path h. ap (starts_with text) (init-append path b'%');
  select_routes-rows = λ d p x db. (row-route p x db, route-row p x db);
  select_longest-some = λ d q db x e. longest-some q db x e;
  select_longest-none = λ d q db e. longest-none q db e;
}

abbrev db : Bytes × Bytes
db = (1 ∷ [], 2 ∷ [])

db-IsPlain : IsPlain table [] db
unfolding is_plain
db-IsPlain p x r = elim (route-cases p x db r) [ inl h ↦ rw h refl | inr h ↦ rw h refl ]

route_mapping_lookup-lookup_submappings_example :
    route_mapping_lookup table true [] (b'/' ∷ b'a' ∷ b'b' ∷ []) db
    ≡ Types.GenericResult.ok
        (lookup_submappings (b'/' ∷ b'a' ∷ b'b' ∷ []) (collect (table.select_routes [] db)))
route_mapping_lookup-lookup_submappings_example =
    route_mapping_lookup-lookup_submappings table [] (b'/' ∷ b'a' ∷ b'b' ∷ []) db db-IsPlain
