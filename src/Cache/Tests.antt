-- ===== src/Cache/Tests.antt =====
-- Runs of the cache of internal/cache/cache.go, and the theorems at them.
use Prim.Native.String.{◌++◌}
use aigateway.Prelude.{ℕ, ◌≤◌, ◌≡◌, refl, none, some, List, [], ◌∷◌, arith}
use aigateway.Prelude.Dict.{Dict, lookup, insert, IsRange}
use aigateway.Types.{Message}
use aigateway.Cache.{CacheEntry, MemoryCache, new_memory_cache, get, set, sweep, evict}
use aigateway.Cache.Eviction.{IsBounded, set-IsBounded}
use aigateway.Cache.Lookup.{Op, gets, sets, run, last_set, hit_is_last_set}
use aigateway.Cache.Key.{build_key, NulFree, build_key_collides}

abbrev as_stored : Dict (CacheEntry ℕ) → Dict (CacheEntry ℕ)
as_stored m = m

as_stored-IsRange : IsRange as_stored
as_stored-IsRange = record { once = λ m h. h; same = λ m k h. refl }

-- A cache of two entries, both taken; the first expires first.
abbrev full : MemoryCache ℕ
full = record {
  entries =
      ("a", record { resp = 1; expires_at = 50 })
      ∷ ("b", record { resp = 2; expires_at = 60 })
      ∷ [];
  ttl = 30;
  max_size = 2;
  hits = 0;
  misses = 0;
  evictions = 0;
}

full-IsBounded : IsBounded full
unfolding lookup
full-IsBounded = record { is_map = (refl, (refl, tt)); room = omega arith; fits = omega arith }

set-IsBounded_example : IsBounded (set as_stored 40 41 "c" 3 full)
set-IsBounded_example = set-IsBounded as_stored 40 41 "c" 3 full as_stored-IsRange full-IsBounded

abbrev calls : List (Op ℕ)
calls = sets as_stored 10 10 "a" 1 ∷ sets as_stored 11 12 "a" 5 ∷ gets 20 "b" ∷ []

hit_is_last_set_example :
    (e : CacheEntry ℕ) × (last_set 30 "a" calls none ≡ some e) × (e.resp ≡ 5) × (40 ≤ e.expires_at)
unfolding get run set sweep evict lookup insert new_memory_cache
hit_is_last_set_example = hit_is_last_set 30 2 calls 40 "a" 5 refl

abbrev question : Message
question = record { role = "user"; content = "hi" }

abbrev reply : Message
reply = record { role = "assistant"; content = "hello" }

build_key_collides_example :
    build_key (λ s. s) "acme" "gpt-4o" (question ∷ reply ∷ [])
    ≡ build_key
        (λ s. s)
        "acme"
        "gpt-4o"
        (record { role = "user"; content = "hi" ++ ("assistant" ++ "hello") } ∷ [])
build_key_collides_example = build_key_collides (λ s. s) "acme" "gpt-4o" question reply []

acme-NulFree : NulFree "acme"
acme-NulFree = (λ e. cc, (λ e. cc, (λ e. cc, (λ e. cc, tt))))
