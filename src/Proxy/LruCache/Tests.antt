-- ===== src/Proxy/LruCache/Tests.antt =====
-- A cache that never evicts: what the interface promises can hold.
use summer21_rusty_workers.Prelude.{◌≡◌, ◌≢◌, refl, inl, Option, none, some, if◌then◌else◌, arith}
use summer21_rusty_workers.Bytes.{Bytes, equals, equals_refl, equals_iff}
use summer21_rusty_workers.Proxy.LruCache.{LruCache}

abbrev pub Entries : Type 0 → Type 0
Entries V = Bytes → Option V

abbrev pub set : {V : Type 0} → Bytes → Option V → Entries V → Entries V
set k o c j = if equals k j then o else c j

pub set_same : {V : Type 0} (k : Bytes) (o : Option V) (c : Entries V) → set k o c k ≡ o
set_same k o c = ground (arith, equals_refl k)

pub set_other :
    {V : Type 0} (k j : Bytes) (o : Option V) (c : Entries V) → k ≢ j → set k o c j ≡ c j
set_other k j o c n = ground (arith, equals_iff k j)

abbrev pub unbounded : (V : Type 0) → LruCache V
unbounded V = record {
  Cache = Entries V;
  empty = λ k. none;
  peek = λ k c. c k;
  get = λ k c. (c k, c);
  insert = λ k v c. set k (some v) c;
  remove = λ k c. set k none c;
  peek-empty = λ k. refl;
  get-found = λ k c. refl;
  peek-get = λ k j c. refl;
  peek-insert_same = λ k v c. set_same k (some v) c;
  peek-insert_other = λ k j v c n. inl (set_other k j (some v) c n);
  peek-remove_same = λ k c. set_same k none c;
  peek-remove_other = λ k j c n. set_other k j none c n;
}
