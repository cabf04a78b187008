-- ===== src/Cache.antt =====
-- internal/cache/cache.go: the in-memory cache, `MemoryCache`. Clock readings are arguments; `Set`
-- has two, one for the sweep of expired entries and one for the new entry. The order in which
-- `Set` ranges over the entries is an argument too. Hit, miss and eviction counts are natural
-- numbers.
pub mod Redis
pub mod Lookup
pub mod Eviction
pub mod Loss
pub mod Key
mod Tests
use aigateway.Prelude.{
  ℕ, ◌+◌, String, Bool, true, false, Option, none, some, [], ◌∷◌, ◌||◌, not, length, ltb, leb,
  if◌then◌else◌, str_eq,
}
use aigateway.Prelude.Dict.{Dict, lookup, insert, remove, keep_values}

module _ (R : Type 0) where
  pub record CacheEntry : Type 0 where
    pub resp : R
    pub expires_at : ℕ

  pub record MemoryCache : Type 0 where
    pub entries : Dict CacheEntry
    pub ttl : ℕ
    pub max_size : ℕ
    pub hits : ℕ
    pub misses : ℕ
    pub evictions : ℕ

pub record CacheStats : Type 0 where
  pub hits : ℕ
  pub misses : ℕ
  pub size : ℕ
  pub max_size : ℕ
  pub evictions : ℕ

module _ {R : Type 0} where
  pub new_memory_cache : ℕ → ℕ → MemoryCache R
  new_memory_cache ttl max_size = record {
    entries = [];
    ttl = ttl;
    max_size = max_size;
    hits = 0;
    misses = 0;
    evictions = 0;
  }

  abbrev pub expired : ℕ → CacheEntry R → Bool
  expired now e = ltb e.expires_at now

  unfoldable pub get : ℕ → String → MemoryCache R → Option R × MemoryCache R
  get now key c = elim (lookup key c.entries) [
    | none ↦ (none, record c { misses = c.misses + 1 })
    | some e ↦
        if expired now e
        then (none, record c { misses = c.misses + 1 })
        else (some e.resp, record c { hits = c.hits + 1 })
  ]

  abbrev pub is_full : MemoryCache R → Bool
  is_full c = leb c.max_size (length c.entries)

  -- The first loop of `Set`: at capacity, the expired entries go.
  unfoldable pub sweep : ℕ → MemoryCache R → MemoryCache R
  sweep now c =
      if is_full c
      then (record c {
        entries = keep_values (λ e. not (expired now e)) c.entries;
        evictions = c.evictions + length (keep_values (expired now) c.entries);
      })
      else c

  -- The loop that looks for the entry which expires first, from the best one so far.
  pub earlier : String × ℕ → String → CacheEntry R → String × ℕ
  earlier best k e = if str_eq best.0 "" || ltb e.expires_at best.1 then (k, e.expires_at) else best

  pub oldest : Dict (CacheEntry R) → String × ℕ → String × ℕ
  unfolding earlier
  oldest [] best = best
  oldest ((k, e) ∷ rest) best = oldest rest (earlier best k e)

  -- Still at capacity, that entry goes.
  unfoldable pub evict : (Dict (CacheEntry R) → Dict (CacheEntry R)) → MemoryCache R → MemoryCache R
  evict order c =
      if is_full c
      then (record c {
        entries = remove (oldest (order c.entries) ("", 0)).0 c.entries;
        evictions = c.evictions + 1;
      })
      else c

  unfoldable pub set :
      (Dict (CacheEntry R) → Dict (CacheEntry R))
      → ℕ
      → ℕ
      → String
      → R
      → MemoryCache R
      → MemoryCache R
  unfolding sweep evict
  set order swept now key resp c =
      let c' = evict order (sweep swept c) in
      record c' {
        entries = insert key (record { resp = resp; expires_at = now + c'.ttl }) c'.entries;
      }

  pub stats : MemoryCache R → CacheStats
  stats c = record {
    hits = c.hits;
    misses = c.misses;
    size = length c.entries;
    max_size = c.max_size;
    evictions = c.evictions;
  }
