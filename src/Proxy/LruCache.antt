-- ===== src/Proxy/LruCache.antt =====
-- `lru_time_cache`'s `LruCache`, which the proxy uses without a time limit: what its operations promise.
-- An insertion can evict other entries; the entry that is
-- inserted stays, since the capacity is positive.
pub mod Keeps
pub mod Tests
use summer21_rusty_workers.Prelude.{◌≡◌, ◌≢◌, ◌⊎◌, Option, none, some}
use summer21_rusty_workers.Bytes.{Bytes}

pub record LruCache (V : Type 0) : Type 1 where
  pub Cache : Type 0
  pub empty : Cache
  pub peek : Bytes → Cache → Option V
  pub get : Bytes → Cache → Option V × Cache
  pub insert : Bytes → V → Cache → Cache
  pub remove : Bytes → Cache → Cache
  pub peek-empty : (k : Bytes) → peek k empty ≡ none
  pub get-found : (k : Bytes) (c : Cache) → (get k c).0 ≡ peek k c
  pub peek-get : (k j : Bytes) (c : Cache) → peek j (get k c).1 ≡ peek j c
  pub peek-insert_same : (k : Bytes) (v : V) (c : Cache) → peek k (insert k v c) ≡ some v
  pub peek-insert_other :
      (k j : Bytes) (v : V) (c : Cache)
      → k ≢ j
      → (peek j (insert k v c) ≡ peek j c) ⊎ (peek j (insert k v c) ≡ none)
  pub peek-remove_same : (k : Bytes) (c : Cache) → peek k (remove k c) ≡ none
  pub peek-remove_other : (k j : Bytes) (c : Cache) → k ≢ j → peek j (remove k c) ≡ peek j c
