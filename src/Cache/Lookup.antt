-- ===== src/Cache/Lookup.antt =====
-- internal/cache/cache.go: what `Get` returns, after one `Set` and over a history of calls.
use aigateway.Prelude.{
  ℕ, ◌+◌, ◌≤◌, ◌≡◌, sym, subst, String, Option, none, some, List, [], ◌∷◌, arith, ltb,
  if◌then◌else◌, str_eq, eq_iff, Option-cases, inl, inr, eq_refl,
}
use aigateway.Prelude.Dict.{Dict, lookup, IsMap, lookup-insert, insert-IsMap}
use aigateway.Cache.{CacheEntry, MemoryCache, new_memory_cache, get, sweep, evict, set}
use aigateway.Cache.Eviction.{sweep-IsMap, evict-IsMap, ttl-sweep, ttl-evict}
use aigateway.Cache.Loss.{lookup-sweep_kept, lookup-evict_kept}

-- A call of the cache: `Get` with its clock reading, `Set` with its order of ranges and its two.
pub data Op (R : Type 0) : Type 0 where
  gets : ℕ → String → Op R
  sets : (Dict (CacheEntry R) → Dict (CacheEntry R)) → ℕ → ℕ → String → R → Op R

module _ {R : Type 0} where
  pub step : Op R → MemoryCache R → MemoryCache R
  step (gets t key) c = (get t key c).1
  step (sets order swept now key resp) c = set order swept now key resp c

  unfoldable pub run : List (Op R) → MemoryCache R → MemoryCache R
  unfolding step
  run [] c = c
  run (o ∷ os) c = run os (step o c)

  -- The specification: the entry that the last `Set` of a key made.
  pub latest : ℕ → String → Op R → Option (CacheEntry R) → Option (CacheEntry R)
  latest ttl k (gets t key) before = before
  latest ttl k (sets order swept now key resp) before =
      if str_eq key k then some (record { resp = resp; expires_at = now + ttl }) else before

  unfoldable pub last_set : ℕ → String → List (Op R) → Option (CacheEntry R) → Option (CacheEntry R)
  unfolding latest
  last_set ttl k [] before = before
  last_set ttl k (o ∷ os) before = last_set ttl k os (latest ttl k o before)

  -- Each entry of the cache is the last one that was set under its key.
  record Agrees (c : MemoryCache R) (spec : String → Option (CacheEntry R)) : Type 0 where
    is_map : IsMap c.entries
    entry : (k : String) (e : CacheEntry R) → lookup k c.entries ≡ some e → spec k ≡ some e

  pub entries-get : (t : ℕ) (key : String) (c : MemoryCache R) → (get t key c).1.entries ≡ c.entries
  unfolding get
  entries-get t key c = ground arith

  pub ttl-get : (t : ℕ) (key : String) (c : MemoryCache R) → (get t key c).1.ttl ≡ c.ttl
  unfolding get
  ttl-get t key c = ground arith

  ttl-step : (o : Op R) (c : MemoryCache R) → (step o c).ttl ≡ c.ttl
  unfolding step get set
  ttl-step (gets t key) c = ground arith
  ttl-step (sets order swept now key resp) c =
      ground (arith, ttl-evict order (sweep swept c), ttl-sweep swept c)

  step-Agrees :
      (o : Op R) (c : MemoryCache R) (spec : String → Option (CacheEntry R))
      → Agrees c spec
      → Agrees (step o c) (λ k. latest c.ttl k o (spec k))
  unfolding step latest set
  step-Agrees (gets t key) c spec h = record {
    is_map = subst IsMap (sym (entries-get t key c)) h.is_map;
    entry = λ k e. rw entries-get (h.entry k e);
  }
  step-Agrees (sets order swept now key resp) c spec h =
      let e : CacheEntry R = record {
        resp = resp;
        expires_at = now + (evict order (sweep swept c)).ttl;
      } in
      let kept = evict-IsMap order (sweep swept c) (sweep-IsMap swept c h.is_map) in
      record {
        is_map = insert-IsMap key e _ kept;
        entry = λ k u found. ground (
          arith,
          eq_iff key k,
          lookup-insert key k e (evict order (sweep swept c)).entries,
          ttl-evict order (sweep swept c),
          ttl-sweep swept c,
          h.entry k u,
          lookup-sweep_kept swept c k u h.is_map,
          lookup-evict_kept order (sweep swept c) k u,
        );
      }

  run-Agrees :
      (os : List (Op R)) (c : MemoryCache R) (spec : String → Option (CacheEntry R))
      → Agrees c spec
      → Agrees (run os c) (λ k. last_set c.ttl k os (spec k))
  unfolding run last_set
  run-Agrees [] c spec h = h
  run-Agrees (o ∷ os) c spec h =
      subst (λ ttl. Agrees (run os (step o c)) (λ k. last_set ttl k os (latest c.ttl k o (spec k))))
        (ttl-step o c) (run-Agrees os (step o c) _ (step-Agrees o c spec h))

  get_hit :
      (t : ℕ) (k : String) (c : MemoryCache R) (r : R)
      → (get t k c).0 ≡ some r
      → (e : CacheEntry R) × (lookup k c.entries ≡ some e) × (e.resp ≡ r) × (t ≤ e.expires_at)
  unfolding get
  get_hit t k c r h = elim (Option-cases (lookup k c.entries)) [
    | inl e ↦ absurd (ground arith)
    | inr (e, found) ↦ (e, found, ground arith, ground arith)
  ]

  -- After any calls, a hit returns the response that was last set under the key, and not later than
  -- the time to live after that `Set`.
  pub hit_is_last_set :
      (ttl max_size : ℕ) (os : List (Op R)) (t : ℕ) (k : String) (r : R)
      → (get t k (run os (new_memory_cache ttl max_size))).0 ≡ some r
      → (e : CacheEntry R) × (last_set ttl k os none ≡ some e) × (e.resp ≡ r) × (t ≤ e.expires_at)
  unfolding new_memory_cache lookup
  hit_is_last_set ttl max_size os t k r h =
      let (e, found, same, fresh) = get_hit t k (run os (new_memory_cache ttl max_size)) r h in
      let agrees =
        run-Agrees os (new_memory_cache ttl max_size) (λ j. none)
          (record { is_map = tt; entry = λ j u got. cc }) in
      (e, agrees.entry k e found, same, fresh)

  counts-set :
      (order : Dict (CacheEntry R) → Dict (CacheEntry R)) (swept now : ℕ) (key : String) (resp : R)
      (c : MemoryCache R)
      → let c' = set order swept now key resp c in (c'.hits ≡ c.hits) × (c'.misses ≡ c.misses)
  unfolding set sweep evict
  counts-set order swept now key resp c = ground arith

  lookup-set_self :
      (order : Dict (CacheEntry R) → Dict (CacheEntry R)) (swept now : ℕ) (key : String) (resp : R)
      (c : MemoryCache R)
      → lookup key (set order swept now key resp c).entries
        ≡ some (record { resp = resp; expires_at = now + c.ttl })
  unfolding set
  lookup-set_self order swept now key resp c = rw (lookup-insert, eq_refl key, ttl-evict, ttl-sweep)

  -- A `Get` after a `Set` of its key returns the response until the time to live has passed, and
  -- then nothing; it counts as a hit or as a miss accordingly.
  pub get-set :
      (order : Dict (CacheEntry R) → Dict (CacheEntry R)) (swept now t : ℕ) (key : String)
      (resp : R) (c : MemoryCache R)
      → let c' = set order swept now key resp c in
        ((get t key c').0 ≡ (if ltb (now + c.ttl) t then none else some resp))
        × ((get t key c').1.hits ≡ c.hits + (if ltb (now + c.ttl) t then 0 else 1))
        × ((get t key c').1.misses ≡ c.misses + (if ltb (now + c.ttl) t then 1 else 0))
  unfolding get
  get-set order swept now t key resp c =
      ground
        (arith, counts-set order swept now key resp c, lookup-set_self order swept now key resp c)
