-- ===== src/Cache/Redis.antt =====
-- internal/cache/cache.go: the cache whose responses stand in Redis. The client, at a time, and the
-- JSON form of a response are parameters; any of the client's calls may fail.
use aigateway.Prelude.{ℕ, String, Option, none, some, List}
use aigateway.Cache.{CacheStats}

-- GET, SET with a time to live, and DBSIZE of a client; a write that fails leaves the server.
pub record Client : Type 1 where
  pub S : Type 0
  pub get : ℕ → String → S → Option (List ℕ)
  pub set : ℕ → String → List ℕ → ℕ → S → S
  pub db_size : ℕ → S → Option ℕ

pub record Json (R : Type 0) : Type 0 where
  pub marshal : R → Option (List ℕ)
  pub unmarshal : List ℕ → Option R

module _ (C : Client) {R : Type 0} (json : Json R) (ttl : ℕ) where
  unfoldable pub redis_get : ℕ → String → C.S → Option R
  redis_get now key s = elim (C.get now key s) [ none ↦ none | some bytes ↦ json.unmarshal bytes ]

  unfoldable pub redis_set : ℕ → String → R → C.S → C.S
  redis_set now key resp s = elim (json.marshal resp) [
    | none ↦ s
    | some bytes ↦ C.set now key bytes ttl s
  ]

  abbrev or_zero : Option ℕ → ℕ
  or_zero none = 0
  or_zero (some n) = n

  unfoldable pub redis_stats : ℕ → C.S → CacheStats
  redis_stats now s = record {
    hits = 0;
    misses = 0;
    size = or_zero (C.db_size now s);
    max_size = 0;
    evictions = 0;
  }
