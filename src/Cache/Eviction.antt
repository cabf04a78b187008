-- ===== src/Cache/Eviction.antt =====
-- internal/cache/cache.go: what `Set` evicts, and the size of the cache.
use mathlib.Core.Path.{◌∙◌, sym}
use aigateway.Prelude.{
  ℕ, ◌+◌, ◌≤◌, ◌<◌, ◌≡◌, ◌≢◌, refl, ap, ◌⊎◌, inl, inr, String, none, some, [], ◌∷◌, ◌||◌, not,
  arith, length, ltb, str_eq, eq_iff, Bool-cases,
}
use aigateway.Prelude.Dict.{
  Dict, lookup, IsMap, IsRange, insert-IsMap, remove-IsMap, keep_values-IsMap, length-insert-le,
  length-remove-lt, length-keep_values-le, length-pos_of_lookup,
}
use aigateway.Cache.{CacheEntry, MemoryCache, expired, is_full, sweep, earlier, oldest, evict, set}

module _ {R : Type 0} where
  earlier_cases :
      (best : String × ℕ) (k : String) (e : CacheEntry R)
      → (earlier best k e ≡ (k, e.expires_at)) × (best.0 ≢ "" → e.expires_at ≤ best.1)
        ⊎ (earlier best k e ≡ best) × (best.0 ≢ "") × (best.1 ≤ e.expires_at)
  unfolding earlier
  earlier_cases best k e = elim (Bool-cases (str_eq best.0 "" || ltb e.expires_at best.1)) [
    | inl hit ↦ inl (ground arith, λ named. ground (arith, eq_iff best.0 ""))
    | inr miss ↦ inr (ground arith, λ empty. ground (arith, eq_iff best.0 ""), ground arith)
  ]

  -- What the search from `best` finds: `best` itself, or an entry of the map.
  abbrev Found : Dict (CacheEntry R) → String × ℕ → String × ℕ → Type 0
  Found m best r =
      (r ≡ best) ⊎ ((e : CacheEntry R) × (lookup r.0 m ≡ some e) × (e.expires_at ≡ r.1))

  Found-cons :
      (k : String) (e : CacheEntry R) (m : Dict (CacheEntry R)) (best r : String × ℕ)
      → lookup k m ≡ none
      → Found m (earlier best k e) r
      → Found ((k, e) ∷ m) best r
  unfolding lookup
  Found-cons k e m best r fresh (inl same) = elim (earlier_cases best k e) [
    | inl (hit, _) ↦ inr (
      e,
      ground (arith, eq_iff k r.0, ap (λ (b : String × ℕ). b.0) (same ∙ hit)),
      sym (ap (λ (b : String × ℕ). b.1) (same ∙ hit)),
    )
    | inr (miss, _, _) ↦ inl (same ∙ miss)
  ]
  Found-cons k e m best r fresh (inr (e', found, t)) = inr (e', ground (arith, eq_iff k r.0), t)

  oldest-Found :
      (m : Dict (CacheEntry R)) (best : String × ℕ) → IsMap m → Found m best (oldest m best)
  unfolding oldest
  oldest-Found [] best h = inl refl
  oldest-Found ((k, e) ∷ m) best h =
      Found-cons k e m best (oldest m (earlier best k e)) h.0
        (oldest-Found m (earlier best k e) h.1)

  -- Nothing of the map expires before it, where no key is empty.
  abbrev pub IsMin : Dict (CacheEntry R) → ℕ → Type 0
  IsMin m t = (j : String) (e : CacheEntry R) → lookup j m ≡ some e → t ≤ e.expires_at

  oldest-IsMin :
      (m : Dict (CacheEntry R)) (best : String × ℕ)
      → lookup "" m ≡ none
      → best.0 ≢ ""
      → ((oldest m best).1 ≤ best.1) × IsMin m (oldest m best).1
  unfolding oldest lookup
  oldest-IsMin [] best h named = (omega arith, λ j e found. cc)
  oldest-IsMin ((k, e) ∷ m) best h named =
      let rest : ((oldest m (earlier best k e)).1 ≤ (earlier best k e).1)
          × IsMin m (oldest m (earlier best k e)).1 =
        oldest-IsMin m (earlier best k e) (ground (arith, eq_iff k ""))
          (λ empty. ground (arith, earlier_cases best k e, eq_iff k "")) in
      (
        ground (arith, earlier_cases best k e),
        λ j e' found. ground (arith, earlier_cases best k e, rest.1 j e', eq_iff k j),
      )

  cons-IsMin :
      (k : String) (e : CacheEntry R) (m : Dict (CacheEntry R))
      → lookup "" ((k, e) ∷ m) ≡ none
      → IsMin ((k, e) ∷ m) (oldest m (k, e.expires_at)).1
  unfolding lookup
  cons-IsMin k e m named j e' found =
      let rest =
        oldest-IsMin m (k, e.expires_at) (ground (arith, eq_iff k ""))
          (λ empty. ground (arith, eq_iff k "")) in
      ground (arith, rest.0, rest.1 j e', eq_iff k j)

  -- An entry of the map that no other expires before, where no key is empty.
  abbrev pub Chosen : Dict (CacheEntry R) → String → Type 0
  Chosen m k =
      (e : CacheEntry R) × (lookup k m ≡ some e) × (lookup "" m ≡ none → IsMin m e.expires_at)

  oldest-Chosen : (m : Dict (CacheEntry R)) → IsMap m → 0 < length m → Chosen m (oldest m ("", 0)).0
  unfolding oldest earlier lookup
  oldest-Chosen [] h pos = elim pos [ ]
  oldest-Chosen ((k, e) ∷ m) h pos = elim (oldest-Found m (k, e.expires_at) h.1) [
    | inl same ↦ (
      e,
      ground (arith, eq_iff k k, same),
      λ named j e' found. ground (arith, cons-IsMin k e m named j e' found),
    )
    | inr (e', found, t) ↦ (
      e',
      ground (arith, eq_iff k (oldest m (k, e.expires_at)).0),
      λ named j e'' found'. ground (arith, cons-IsMin k e m named j e'' found'),
    )
  ]

  module _ (order : Dict (CacheEntry R) → Dict (CacheEntry R)) (ranges : IsRange order) where
    length-order : (m : Dict (CacheEntry R)) → IsMap m → 0 < length m → 0 < length (order m)
    unfolding lookup
    length-order [] h pos = elim pos [ ]
    length-order ((k, e) ∷ m) h pos =
        length-pos_of_lookup k e (order ((k, e) ∷ m))
          (ranges.same ((k, e) ∷ m) k h ∙ ground (arith, eq_iff k k))

    -- The key that `evict` removes.
    pub evict-Chosen :
        (m : Dict (CacheEntry R)) → IsMap m → 0 < length m → Chosen m (oldest (order m) ("", 0)).0
    evict-Chosen m h pos =
        let (e, found, least) = oldest-Chosen (order m) (ranges.once m h) (length-order m h pos) in
        (
          e,
          sym (ranges.same m _ h) ∙ found,
          λ named j e' found'. least (ranges.same m "" h ∙ named) j e' (ranges.same m j h ∙ found'),
        )

-- The map is one, and within the capacity, which is not 0.
pub record IsBounded {R : Type 0} (c : MemoryCache R) : Type 0 where
  pub is_map : IsMap c.entries
  pub room : 0 < c.max_size
  pub fits : length c.entries ≤ c.max_size

module _ {R : Type 0} where
  pub sweep-IsMap : (t : ℕ) (c : MemoryCache R) → IsMap c.entries → IsMap (sweep t c).entries
  unfolding sweep
  sweep-IsMap t c h = ground (arith, keep_values-IsMap (λ e. not (expired t e)) c.entries h)

  pub sweep-IsBounded : (t : ℕ) (c : MemoryCache R) → IsBounded c → IsBounded (sweep t c)
  unfolding sweep
  sweep-IsBounded t c h = ground (
    arith,
    keep_values-IsMap (λ e. not (expired t e)) c.entries h.is_map,
    length-keep_values-le (λ e. not (expired t e)) c.entries,
  )

  pub max_size-sweep : (t : ℕ) (c : MemoryCache R) → (sweep t c).max_size ≡ c.max_size
  unfolding sweep
  max_size-sweep t c = ground arith

  pub ttl-sweep : (t : ℕ) (c : MemoryCache R) → (sweep t c).ttl ≡ c.ttl
  unfolding sweep
  ttl-sweep t c = ground arith

  module _ (order : Dict (CacheEntry R) → Dict (CacheEntry R)) where
    pub max_size-evict : (c : MemoryCache R) → (evict order c).max_size ≡ c.max_size
    unfolding evict
    max_size-evict c = ground arith

    pub ttl-evict : (c : MemoryCache R) → (evict order c).ttl ≡ c.ttl
    unfolding evict
    ttl-evict c = ground arith

    pub evict-IsMap : (c : MemoryCache R) → IsMap c.entries → IsMap (evict order c).entries
    unfolding evict
    evict-IsMap c h = ground (arith, remove-IsMap (oldest (order c.entries) ("", 0)).0 c.entries h)

    evict_makes_room :
        (c : MemoryCache R)
        → IsRange order
        → IsBounded c
        → length (evict order c).entries < c.max_size
    unfolding evict
    evict_makes_room c ranges h = elim (Bool-cases (is_full c)) [
      | inl full ↦
          let (e, found, _) = evict-Chosen order ranges c.entries h.is_map (ground (arith, h)) in
          ground (arith, h, length-remove-lt (oldest (order c.entries) ("", 0)).0 e c.entries found)
      | inr space ↦ ground arith
    ]

    -- `Set` keeps a cache of at least one entry within its capacity, whatever the order of the
    -- ranges over the map.
    pub set-IsBounded :
        (swept now : ℕ) (key : String) (resp : R) (c : MemoryCache R)
        → IsRange order
        → IsBounded c
        → IsBounded (set order swept now key resp c)
    unfolding set
    set-IsBounded swept now key resp c ranges h =
        let s = sweep-IsBounded swept c h in
        let e : CacheEntry R = record {
          resp = resp;
          expires_at = now + (evict order (sweep swept c)).ttl;
        } in
        record {
          is_map = insert-IsMap key e _ (evict-IsMap (sweep swept c) s.is_map);
          room = omega (arith, h.room, max_size-evict (sweep swept c), max_size-sweep swept c);
          fits = omega (
            arith,
            evict_makes_room (sweep swept c) ranges s,
            length-insert-le key e (evict order (sweep swept c)).entries,
            max_size-evict (sweep swept c),
          );
        }
