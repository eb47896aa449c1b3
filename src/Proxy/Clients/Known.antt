-- ===== src/Proxy/Clients/Known.antt =====
-- Which runtimes are known after a query and after a discovery.
use summer21_rusty_workers.Prelude.{
  ℕ, ◌≡◌, refl, true, false, Bool-cases, Option-cases, inl, inr, Option, none, some, List, [], ◌∷◌,
  map, arith, if◌then◌else◌, subst, ◌∙◌, Bool, ◌||◌,
}
use summer21_rusty_workers.Bytes.{Bytes, equals, equals→eq, equals_iff, precedes_irrefl, precedes}
use summer21_rusty_workers.BtreeMap
use summer21_rusty_workers.BtreeMap.{
  BtreeMap, get-insert, IsSorted, Above, remove-IsSorted, get-remove,
}
use summer21_rusty_workers.Types
use summer21_rusty_workers.Types.{GenericResult}
use summer21_rusty_workers.Proxy.State.{RtState}
use summer21_rusty_workers.Proxy.Clients.{
  Reply, answered, query_all, remove_all, drop_silent, query_runtimes, greet, add_unknown, add_all,
  discover_runtimes,
}

-- The state of a runtime after its answer; one that gives none is forgotten.
pub refreshed : RtState → Reply → Option RtState
refreshed rt (some (Types.GenericResult.ok load)) = some (record rt { load = load })
refreshed rt (some (Types.GenericResult.err e)) = none
refreshed rt none = none

-- The runtime that has answered, of the addresses in their order.
pub first_greeted : Bytes → List (Option (Bytes × ℕ)) → Option RtState
first_greeted k [] = none
first_greeted k (none ∷ l) = first_greeted k l
first_greeted k (some (rtid, client) ∷ l) =
    if equals rtid k then some (record { client = client; load = 0 }) else first_greeted k l

pub known_or : Option RtState → Option RtState → Option RtState
known_or (some rt) o = some rt
known_or none o = o

known_or-none : (o : Option RtState) → o ≡ known_or o none
unfolding known_or
known_or-none none = refl
known_or-none (some rt) = refl

shadowed :
    (k rtid : Bytes) (client : ℕ) (rt : RtState) (l : List (Option (Bytes × ℕ)))
    (clients : BtreeMap RtState)
    → BtreeMap.get rtid clients ≡ some rt
    → known_or (BtreeMap.get k clients) (first_greeted k l)
      ≡ known_or (BtreeMap.get k clients) (first_greeted k (some (rtid, client) ∷ l))
unfolding known_or first_greeted
shadowed k rtid client rt l clients e = elim (Bool-cases (equals rtid k)) [
  | inr n ↦ rw n refl
  | inl y ↦ rw (subst (λ x. BtreeMap.get x clients ≡ some rt) (equals→eq rtid k y) e) refl
]

answered-Above :
    (j k : Bytes) (rt : RtState) (reply : Reply) (r : BtreeMap RtState × List Bytes)
    → precedes j k ≡ true
    → Above j r.0
    → Above j (answered k rt reply r).0
unfolding answered
answered-Above j k rt (some (Types.GenericResult.ok load)) r p a = (p, a)
answered-Above j k rt (some (Types.GenericResult.err e)) r p a = (p, a)
answered-Above j k rt none r p a = (p, a)

answered-IsSorted :
    (k : Bytes) (rt : RtState) (reply : Reply) (r : BtreeMap RtState × List Bytes)
    → Above k r.0
    → IsSorted r.0
    → IsSorted (answered k rt reply r).0
unfolding answered
answered-IsSorted k rt (some (Types.GenericResult.ok load)) r a s = (a, s)
answered-IsSorted k rt (some (Types.GenericResult.err e)) r a s = (a, s)
answered-IsSorted k rt none r a s = (a, s)

add_all-get :
    (k : Bytes) (l : List (Option (Bytes × ℕ))) (clients : BtreeMap RtState)
    → BtreeMap.get k (add_all l clients) ≡ known_or (BtreeMap.get k clients) (first_greeted k l)
unfolding add_all first_greeted known_or
add_all-get k [] clients = known_or-none (BtreeMap.get k clients)
add_all-get k (none ∷ l) clients = add_all-get k l clients
add_all-get k (some (rtid, client) ∷ l) clients = elim (Option-cases (BtreeMap.get rtid clients)) [
  | inr (rt, e) ↦
      rw (e, add_unknown) (add_all-get k l clients ∙ shadowed k rtid client rt l clients e)
  | inl e ↦
      rw (e, add_unknown)
        (add_all-get k l (BtreeMap.insert rtid (record { client = client; load = 0 }) clients)
          ∙ ground (
            arith,
            get-insert rtid k (record { client = client; load = 0 }) clients,
            equals→eq rtid k,
          ))
]

-- A runtime that was known stays as it was; of the others, those are known that have answered, by the
-- first of the addresses that reaches them, with a load of 0.
pub discover_runtimes-get :
    (connect : Bytes → Option ℕ) (id : ℕ → Option Bytes) (runtime_cluster : List Bytes)
    (clients : BtreeMap RtState) (k : Bytes)
    → BtreeMap.get k (discover_runtimes connect id runtime_cluster clients)
      ≡ known_or (BtreeMap.get k clients) (first_greeted k (map (greet connect id) runtime_cluster))
unfolding discover_runtimes
discover_runtimes-get connect id runtime_cluster clients k =
    add_all-get k (map (greet connect id) runtime_cluster) clients

listed : Bytes → List Bytes → Bool
listed k [] = false
listed k (j ∷ l) = equals j k || listed k l

remove_all-get :
    (k : Bytes) (l : List Bytes) (m : BtreeMap RtState)
    → IsSorted m
    → BtreeMap.get k (remove_all l m) ≡ (if listed k l then none else BtreeMap.get k m)
unfolding remove_all listed
remove_all-get k [] m s = refl
remove_all-get k (j ∷ l) m s =
    remove_all-get k l (BtreeMap.remove j m) (remove-IsSorted j m s)
    ∙ ground (arith, get-remove j k m s)

drop_silent-get :
    (k : Bytes) (r : BtreeMap RtState × List Bytes)
    → IsSorted r.0
    → BtreeMap.get k (drop_silent (λ m. m) r) ≡ (if listed k r.1 then none else BtreeMap.get k r.0)
unfolding drop_silent
drop_silent-get k (m, []) s = remove_all-get k [] m s
drop_silent-get k (m, j ∷ l) s = remove_all-get k (j ∷ l) m s

query_all-Above :
    (load : RtState → Reply) (j : Bytes) (m : BtreeMap RtState)
    → Above j m
    → Above j (query_all load m).0
unfolding query_all
query_all-Above load j [] a = tt
query_all-Above load j ((k, rt) ∷ m) a =
    answered-Above j k rt (load rt) (query_all load m) a.0 (query_all-Above load j m a.1)

query_all-IsSorted :
    (load : RtState → Reply) (m : BtreeMap RtState) → IsSorted m → IsSorted (query_all load m).0
unfolding query_all
query_all-IsSorted load [] s = tt
query_all-IsSorted load ((k, rt) ∷ m) s =
    answered-IsSorted k rt (load rt) (query_all load m) (query_all-Above load k m s.0)
      (query_all-IsSorted load m s.1)

-- What a lookup gives after the loads are asked for and the silent runtimes removed.
abbrev found_in : Bytes → BtreeMap RtState × List Bytes → Option RtState
found_in k r = if listed k r.1 then none else BtreeMap.get k r.0

answered-found :
    (k j : Bytes) (rt : RtState) (reply : Reply) (r : BtreeMap RtState × List Bytes)
    → (equals j k ≡ true → listed k r.1 ≡ false)
    → found_in k (answered j rt reply r) ≡ (if equals j k then refreshed rt reply else found_in k r)
unfolding answered refreshed listed BtreeMap.get
answered-found k j rt (some (Types.GenericResult.ok load)) r h = ground arith
answered-found k j rt (some (Types.GenericResult.err e)) r h = ground arith
answered-found k j rt none r h = ground arith

answered-unlisted :
    (k j : Bytes) (rt : RtState) (reply : Reply) (r : BtreeMap RtState × List Bytes)
    → precedes k j ≡ true
    → listed k r.1 ≡ false
    → listed k (answered j rt reply r).1 ≡ false
unfolding answered listed
answered-unlisted k j rt (some (Types.GenericResult.ok load)) r p h = h
answered-unlisted k j rt (some (Types.GenericResult.err e)) r p h =
    ground (arith, equals_iff j k, precedes_irrefl k)
answered-unlisted k j rt none r p h = ground (arith, equals_iff j k, precedes_irrefl k)

unlisted :
    (load : RtState → Reply) (k : Bytes) (m : BtreeMap RtState)
    → Above k m
    → listed k (query_all load m).1 ≡ false
unfolding query_all
unlisted load k [] a = unfold listed in refl
unlisted load k ((j, rt) ∷ m) a =
    answered-unlisted k j rt (load rt) (query_all load m) a.0 (unlisted load k m a.1)

pub and_then : (RtState → Reply) → Option RtState → Option RtState
and_then load none = none
and_then load (some rt) = refreshed rt (load rt)

query_all-found :
    (load : RtState → Reply) (k : Bytes) (m : BtreeMap RtState)
    → IsSorted m
    → found_in k (query_all load m) ≡ and_then load (BtreeMap.get k m)
unfolding query_all and_then BtreeMap.get listed
query_all-found load k [] s = refl
query_all-found load k ((j, rt) ∷ m) s =
    answered-found k j rt (load rt) (query_all load m)
      (λ e. unlisted load k m (subst (λ x. Above x m) (equals→eq j k e) s.0))
    ∙ ground (arith, query_all-found load k m s.1)

-- If nothing else touches the clients meanwhile: a runtime that answers has the load that it says, one
-- that does not is forgotten, and no other becomes known.
pub query_runtimes-get :
    (load : RtState → Reply) (clients : BtreeMap RtState) (k : Bytes)
    → IsSorted clients
    → BtreeMap.get k (query_runtimes (λ m. m) load clients) ≡ and_then load (BtreeMap.get k clients)
unfolding query_runtimes
query_runtimes-get load clients k s =
    drop_silent-get k (query_all load clients) (query_all-IsSorted load clients s)
    ∙ query_all-found load k clients s
