-- ===== src/Cache/Loss.antt =====
-- internal/cache/cache.go: which entries `Set` gives up.
use mathlib.Core.Path.{◌∙◌, sym}
use aigateway.Prelude.{
  ℕ, ◌+◌, ◌≤◌, ◌<◌, ◌≡◌, ◌≢◌, ◌⊎◌, inl, inr, String, true, false, none, some, not, arith,
  if◌then◌else◌, str_eq, eq_iff, Bool-cases,
}
use aigateway.Prelude.Dict.{
  Dict, lookup, IsMap, IsRange, lookup-insert, lookup-remove, lookup-keep_values,
}
use aigateway.Cache.{CacheEntry, MemoryCache, expired, is_full, sweep, oldest, evict, set}
use aigateway.Cache.Eviction.{IsBounded, sweep-IsBounded, evict-Chosen, IsMin}

module _ {R : Type 0} where
  -- What `sweep` leaves of a key.
  lookup-sweep :
      (t : ℕ) (c : MemoryCache R) (j : String)
      → IsMap c.entries
      → lookup j (sweep t c).entries ≡ (
          if is_full c
          then elim (lookup j c.entries) [
            | none ↦ none
            | some e ↦ if not (expired t e) then some e else none
          ]
          else lookup j c.entries)
  unfolding sweep
  lookup-sweep t c j h = ground (arith, lookup-keep_values (λ e. not (expired t e)) j c.entries h)

  -- `sweep` gives up expired entries only, and none below the capacity.
  lookup-sweep_lost :
      (t : ℕ) (c : MemoryCache R) (j : String) (e : CacheEntry R)
      → IsMap c.entries
      → lookup j c.entries ≡ some e
      → (lookup j (sweep t c).entries ≡ some e)
        ⊎ ((is_full c ≡ true) × (e.expires_at < t) × (lookup j (sweep t c).entries ≡ none))
  lookup-sweep_lost t c j e h found = elim (Bool-cases (is_full c)) [
    | inl full ↦ elim (Bool-cases (expired t e)) [
      | inl old ↦ inr (full, ground arith, ground (arith, lookup-sweep t c j h))
      | inr new ↦ inl (ground (arith, lookup-sweep t c j h))
    ]
    | inr space ↦ inl (ground (arith, lookup-sweep t c j h))
  ]

  -- A swept map holds nothing new.
  pub lookup-sweep_kept :
      (t : ℕ) (c : MemoryCache R) (j : String) (e : CacheEntry R)
      → IsMap c.entries
      → lookup j (sweep t c).entries ≡ some e
      → lookup j c.entries ≡ some e
  lookup-sweep_kept t c j e h found = ground (arith, lookup-sweep t c j h)

  lookup-sweep-none :
      (t : ℕ) (c : MemoryCache R) (j : String)
      → IsMap c.entries
      → lookup j c.entries ≡ none
      → lookup j (sweep t c).entries ≡ none
  lookup-sweep-none t c j h e = ground (arith, lookup-sweep t c j h)

  is_full-sweep : (t : ℕ) (c : MemoryCache R) → is_full c ≡ false → is_full (sweep t c) ≡ false
  unfolding sweep
  is_full-sweep t c space = ground arith

  module _ (order : Dict (CacheEntry R) → Dict (CacheEntry R)) where
    pub lookup-evict_kept :
        (c : MemoryCache R) (j : String) (e : CacheEntry R)
        → lookup j (evict order c).entries ≡ some e
        → lookup j c.entries ≡ some e
    unfolding evict
    lookup-evict_kept c j e found =
        ground (arith, lookup-remove (oldest (order c.entries) ("", 0)).0 j c.entries)

    -- `evict` gives up one entry, that no other expires before.
    lookup-evict_lost :
        (c : MemoryCache R) (j : String) (e : CacheEntry R)
        → IsRange order
        → IsBounded c
        → lookup "" c.entries ≡ none
        → lookup j c.entries ≡ some e
        → (lookup j (evict order c).entries ≡ some e)
          ⊎ ((is_full c ≡ true) × IsMin c.entries e.expires_at)
    unfolding evict
    lookup-evict_lost c j e ranges h named found = elim (Bool-cases (is_full c)) [
      | inl full ↦
          let k : String = (oldest (order c.entries) ("", 0)).0 in
          let (e', found', least) =
            evict-Chosen order ranges c.entries h.is_map (ground (arith, h)) in
          elim (Bool-cases (str_eq k j)) [
            | inl hit ↦ inr (full, λ i u got. ground (arith, eq_iff k j, least named i u got))
            | inr miss ↦ inl (ground (arith, lookup-remove k j c.entries))
          ]
      | inr space ↦ inl (ground arith)
    ]

    lookup-set :
        (swept now : ℕ) (key : String) (resp : R) (c : MemoryCache R) (j : String)
        → key ≢ j
        → lookup j (set order swept now key resp c).entries
          ≡ lookup j (evict order (sweep swept c)).entries
    unfolding set
    lookup-set swept now key resp c j other = ground (
      arith,
      eq_iff key j,
      lookup-insert key j
          (record { resp = resp; expires_at = now + (evict order (sweep swept c)).ttl })
          (evict order (sweep swept c)).entries,
    )

    -- Where no entry is under the empty key, an entry under another key that `Set` gives up was in
    -- a full cache, and had expired or expires no later than any entry under another key that is
    -- left.
    pub set_gives_up_oldest :
        (swept now : ℕ) (key : String) (resp : R) (c : MemoryCache R) (j : String)
        (e : CacheEntry R)
        → IsRange order
        → IsBounded c
        → lookup "" c.entries ≡ none
        → key ≢ j
        → lookup j c.entries ≡ some e
        → lookup j (set order swept now key resp c).entries ≡ none
        → (is_full c ≡ true)
          × ((e.expires_at < swept)
              ⊎ ((i : String) (u : CacheEntry R)
                  → key ≢ i
                  → lookup i (set order swept now key resp c).entries ≡ some u
                  → e.expires_at ≤ u.expires_at))
    set_gives_up_oldest swept now key resp c j e ranges h named other found lost =
        elim (lookup-sweep_lost swept c j e h.is_map found) [
          | inr (full, old, _) ↦ (full, inl old)
          | inl kept ↦
              elim (lookup-evict_lost (sweep swept c) j e ranges (sweep-IsBounded swept c h)
                (lookup-sweep-none swept c "" h.is_map named) kept) [
                  | inl stays ↦ cc (lookup-set swept now key resp c j other)
                  | inr (full, least) ↦ (
                    ground (arith, is_full-sweep swept c),
                    inr (λ i u away got. least i u (
                        lookup-evict_kept (sweep swept c) i u
                          (sym (lookup-set swept now key resp c i away) ∙ got))),
                  )
                ]
        ]
