-- ===== src/External/Lru.antt =====
-- github.com/golang/groupcache/lru: a cache that drops the entries used longest ago. `add` returns
-- the entries that it dropped, with which the cache calls `OnEvicted`.
use visus.Prelude.{Option, List, ℤ}

pub record Lru (K V : Type 0) : Type 1 where
  pub Cache : Type 0
  pub new : ℤ → Cache
  pub get : K → Cache → Option V × Cache
  pub add : K → V → Cache → List (K × V) × Cache
