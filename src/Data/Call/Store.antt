-- ===== src/Data/Call/Store.antt =====
-- What the calls promise, without statements and transactions: a store of values that expire.
use summer21_rusty_workers.Prelude.{
  ℕ, ◌≡◌, ◌≤◌, ◌<◌, Member, Bool, true, false, Option, none, some, List, [], ◌∷◌, All, length,
  if◌then◌else◌,
}
use summer21_rusty_workers.Bytes.{Bytes, equals}
use summer21_rusty_workers.Data.Table.{Row, same_key, Distinct}
use summer21_rusty_workers.Data.Kv.{is_live, in_range, expiration_of, executed}
use summer21_rusty_workers.Types.{GenericError}
use summer21_rusty_workers.Data.Call.{
  DataCall, worker_data_get, worker_data_put, worker_data_delete, worker_data_scan_keys,
  worker_data_cmpupdate, DataReply, got, done, keys, compared, broken, Circumstance,
}

abbrev pub Store : Type 0
Store = Bytes → Bytes → Option Row

-- Two stores with the same rows.
abbrev pub Same : Store → Store → Type 0
Same s u = (ns k : Bytes) → s ns k ≡ u ns k

-- The value that is there at a time, if it has not expired.
unfoldable pub visible : ℕ → Option Row → Option Bytes
visible now none = none
visible now (some r) = if is_live now r then some r.value else none

unfoldable pub set : Bytes → Bytes → Option Row → Store → Store
set ns k o s ns' k' = if same_key ns k ns' k' then o else s ns' k'

unfoldable pub set_all : Bytes → ℕ → List (Bytes × Bytes) → Store → Store
unfolding set
set_all ns expiration [] s = s
set_all ns expiration ((k, v) ∷ writes) s =
    set_all ns expiration writes (set ns k (some (record { value = v; expiration = expiration })) s)

-- Whether the value of the key is the one given.
unfoldable pub has_value : Bytes → Option Bytes → Bool
has_value v none = false
has_value v (some x) = equals x v

-- Whether all the assertions hold at a time.
unfoldable pub holds : ℕ → Bytes → List (Bytes × Bytes) → Store → Bool
unfolding has_value
holds now ns [] s = true
holds now ns ((k, v) ∷ assertions) s =
    let rest = holds now ns assertions s in
    if has_value v (visible now (s ns k)) then rest else false

-- A key that has a value at a time keeps it.
unfoldable pub unless_visible : Option Bytes → Bytes → Bytes → Row → Store → Store
unfolding set
unless_visible none ns k r s = set ns k (some r) s
unless_visible (some v) ns k r s = s

unfoldable pub put : Circumstance → Bytes → Bytes → Row → Bool → Store → Store
unfolding unless_visible
put w ns k r false s = set ns k (some r) s
put w ns k r true s = unless_visible (visible w.later (s ns k)) ns k r s

-- With a time of expiration, if there is one.
unfoldable pub expiring : Option ℕ → (ℕ → Store) → Store → Store
expiring none f s = s
expiring (some expiration) f s = f expiration

-- What a call does to the store.
unfoldable pub effect : Circumstance → DataCall → Store → Store
unfolding expiring put
effect w (worker_data_get ns k) s = s
effect w (worker_data_put ns k v if_not_exists ttl_ms) s =
    expiring (expiration_of w.now ttl_ms)
      (λ expiration. put w ns k (record { value = v; expiration = expiration }) if_not_exists s) s
effect w (worker_data_delete ns k) s = set ns k none s
effect w (worker_data_scan_keys ns start end limit) s = s
effect w (worker_data_cmpupdate ns assertions writes ttl_ms) s =
    if holds w.now ns assertions s
    then expiring (expiration_of w.now ttl_ms) (λ expiration. set_all ns expiration writes s) s
    else s

-- What it answers. A scan gives keys of the range that have a value, none twice and at most the limit,
-- and all of them if it gives fewer than the limit.
abbrev pub Answers : Circumstance → DataCall → Store → DataReply → Type 0
Answers w (worker_data_get ns k) s r = r ≡ got (visible w.now (s ns k))
Answers w (worker_data_put _ _ _ _ _) s r = r ≡ done
Answers w (worker_data_delete _ _) s r = r ≡ done
Answers w (worker_data_scan_keys ns start end limit) s r =
    (l : List Bytes) × (r ≡ keys l)
    × (length l ≤ limit)
    × Distinct l
    × (length l < limit
        → (k v : Bytes) → in_range start end k ≡ true
        → visible w.now (s ns k) ≡ some v
        → Member k l)
    × All (λ k. (in_range start end k ≡ true) × ((v : Bytes) × (visible w.now (s ns k) ≡ some v))) l
Answers w (worker_data_cmpupdate ns assertions writes _) s r =
    r ≡ compared (holds w.now ns assertions s)

-- A call on a store: it is answered and has its whole effect, or it gives an error, and has its whole
-- effect or none.
pub data Called (w : Circumstance) (call : DataCall) (s : Store) (r : DataReply) (s' : Store)
    : Type 0 where
  answered : Answers w call s r → Same s' (effect w call s) → Called w call s r s'
  not_done : (e : GenericError) → r ≡ broken e → Same s' s → Called w call s r s'
  unconfirmed : (e : GenericError) → r ≡ broken e → Same s' (effect w call s) → Called w call s r s'

-- The time of expiration does not overflow.
abbrev pub Expires : Circumstance → DataCall → Type 0
Expires w (worker_data_put _ _ _ _ ttl_ms) = (n : ℕ) × (expiration_of w.now ttl_ms ≡ some n)
Expires w (worker_data_cmpupdate _ _ _ ttl_ms) = (n : ℕ) × (expiration_of w.now ttl_ms ≡ some n)
Expires w _ = Unit

-- No statement fails, and the time of expiration does not overflow.
abbrev pub Healthy : Circumstance → DataCall → Type 0
Healthy w call = ((i : ℕ) → w.works i ≡ true) × (w.fate ≡ executed) × Expires w call
