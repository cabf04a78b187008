-- ===== src/RateLimit/Counter.antt =====
-- internal/ratelimit/redis.go: what one call does to the counter of a key.
use aigateway.Prelude.{
  ◌≡◌, sym, ap, subst, ◌∙◌, ◌≢◌, ◌⊎◌, inl, inr, ℕ, ◌+◌, ◌*◌, ◌/◌, ◌≤◌, ◌<◌, String, Bool, true,
  false, none, some, ltb, ◌==◌, ◌&&◌, str_eq, eq_iff, eq_refl, arith, Option-cases, Bool-cases,
  if◌then◌else◌,
}
use aigateway.Prelude.Results.{Result, ok}
use aigateway.RateLimit.Redis.{
  Redis, IsRedis, RedisLimiter, Call, redis_key, or_zero, second, lua_script, allow,
}

abbrev is_granted : Result Bool → Bool
is_granted (ok b) = b
is_granted _ = false

true_not_false : ◌≢◌ {A = Bool} true false
true_not_false = λ h. cc

module _ (R : Redis) (r : RedisLimiter) where
  unfoldable pub grant : String → Call → R.S → ℕ
  grant k c s = if is_granted (allow R r c s).0 && str_eq c.key k then c.cost else 0

  -- The counter of a key from `now` to `to`, where `g` was granted: there is none yet, or it holds at
  -- least `g`, within the limit.
  pub data Counted (now to : ℕ) (k : String) (g : ℕ) (s : R.S) : Type 0 where
    absent :
        g ≡ 0 → ((t : ℕ) → now ≤ t → t < to → R.get t (redis_key k) s ≡ none) → Counted now to k g s
    present :
        (v : ℕ)
        → g ≤ v
        → v ≤ r.limit
        → ((t : ℕ) → now ≤ t → t < to → R.get t (redis_key k) s ≡ some v)
        → Counted now to k g s

  -- The counter that a call finds.
  abbrev count_at : Call → R.S → ℕ
  count_at c s = or_zero (R.get c.now (redis_key c.key) s)

  -- The script refuses and changes nothing, or starts the counter, or adds to it.
  script-cases :
      (c : Call) (s : R.S)
      → let run = lua_script R c.now (redis_key c.key) r.limit c.cost (r.period / second) s in
        ((run.1 ≡ s) × (run.0 ≡ 0))
        ⊎ ((count_at c s + c.cost ≤ r.limit)
            × (count_at c s ≡ 0)
            × (run.1 ≡ R.set_ex c.now (redis_key c.key) c.cost (r.period / second) s))
        ⊎ ((count_at c s + c.cost ≤ r.limit)
            × (0 < count_at c s)
            × (run.1 ≡ R.incr_by c.now (redis_key c.key) c.cost s))
  unfolding lua_script
  script-cases c s = elim (Bool-cases (ltb r.limit (count_at c s + c.cost))) [
    | inl over ↦ inl (ground (arith, over), ground (arith, over))
    | inr fits ↦ elim (Bool-cases (count_at c s == 0)) [
      | inl unused ↦
          inr (inl (ground (arith, fits), ground (arith, unused), ground (arith, fits, unused)))
      | inr used ↦
          inr (inr (ground (arith, fits), ground (arith, used), ground (arith, fits, used)))
    ]
  ]

  -- A call changes nothing and grants nothing, or starts the counter, or adds to it.
  allow-cases :
      (c : Call) (s : R.S)
      → (((allow R r c s).1 ≡ s) × (is_granted (allow R r c s).0 ≡ false))
        ⊎ ((count_at c s + c.cost ≤ r.limit)
            × (count_at c s ≡ 0)
            × ((allow R r c s).1 ≡ R.set_ex c.now (redis_key c.key) c.cost (r.period / second) s))
        ⊎ ((count_at c s + c.cost ≤ r.limit)
            × (0 < count_at c s)
            × ((allow R r c s).1 ≡ R.incr_by c.now (redis_key c.key) c.cost s))
  unfolding allow
  allow-cases c s = elim (Option-cases c.error) [
    | inl reached ↦ elim (script-cases c s) [
      | inl (kept, refused) ↦ inl (ground (arith, reached, kept), ground (arith, reached, refused))
      | inr (inl (fits, unused, set)) ↦ inr (inl (fits, unused, ground (arith, reached, set)))
      | inr (inr (fits, used, raised)) ↦ inr (inr (fits, used, ground (arith, reached, raised)))
    ]
    | inr (e, failed) ↦ elim (Bool-cases e.ran) [
      | inr not_run ↦ inl (ground (arith, failed, not_run), ground (arith, failed))
      | inl run ↦ elim (script-cases c s) [
        | inl (kept, refused) ↦ inl (ground (arith, failed, run, kept), ground (arith, failed))
        | inr (inl (fits, unused, set)) ↦ inr (inl (fits, unused, ground (arith, failed, run, set)))
        | inr (inr (fits, used, raised)) ↦
            inr (inr (fits, used, ground (arith, failed, run, raised)))
      ]
    ]
  ]

  grant-le : (k : String) (c : Call) (s : R.S) → grant k c s ≤ c.cost
  unfolding grant
  grant-le k c s = ground arith

  grant_other :
      (k : String) (c : Call) (s : R.S)
      → str_eq (redis_key c.key) (redis_key k) ≡ false
      → grant k c s ≡ 0
  unfolding grant
  grant_other k c s other = elim (Bool-cases (str_eq c.key k)) [
    | inr different ↦ ground (arith, different)
    | inl same ↦ absurd (
        true_not_false (
          sym (eq_refl (redis_key k))
          ∙ (ap (λ j. str_eq (redis_key j) (redis_key k)) (sym ((eq_iff c.key k).0 same)) ∙ other)))
  ]

  refused_grant :
      (g : ℕ) (k : String) (c : Call) (s : R.S)
      → is_granted (allow R r c s).0 ≡ false
      → g ≡ g + grant k c s
  unfolding grant
  refused_grant g k c s refused = ground (arith, refused)

  pub Counted-later :
      (now later to g : ℕ) (k : String) (s : R.S)
      → now ≤ later
      → Counted now to k g s
      → Counted later to k g s
  Counted-later now later to g k s h (absent none_yet f) =
      absent none_yet (λ t a b. f t (omega arith) b)
  Counted-later now later to g k s h (present v above within f) =
      present v above within (λ t a b. f t (omega arith) b)

  module _ (law : IsRedis R) where
    module _ (now to start : ℕ) (k : String) (g : ℕ) (c : Call) (s : R.S) (begins : start ≤ c.now)
        (ends : to ≤ start + (r.period / second) * second) (before : c.now < to)
        (long : 0 < r.period / second) where
      -- The counter of the key is found by the call.
      found_count :
          str_eq (redis_key c.key) (redis_key k) ≡ true
          → count_at c s ≡ or_zero (R.get c.now (redis_key k) s)
      found_count same =
          ap (λ j. or_zero (R.get c.now j s)) ((eq_iff (redis_key c.key) (redis_key k)).0 same)

      -- A counter of 0 has granted nothing.
      nothing_granted :
          str_eq (redis_key c.key) (redis_key k) ≡ true
          → count_at c s ≡ 0
          → Counted c.now to k g s
          → g ≡ 0
      nothing_granted same unused (absent none_yet f) = none_yet
      nothing_granted same unused (present v above within f) =
          ground (arith, found_count same, f c.now (omega arith) before)

      -- Another key's command leaves the counter.
      other_key :
          (s' : R.S)
          → str_eq (redis_key c.key) (redis_key k) ≡ false
          → ((t : ℕ) → c.now ≤ t → R.get t (redis_key k) s' ≡ R.get t (redis_key k) s)
          → Counted c.now to k g s
          → Counted c.now to k (g + grant k c s) s'
      other_key s' other kept (absent none_yet f) =
          absent (omega (arith, none_yet, grant_other k c s other)) (λ t a b. kept t a ∙ f t a b)
      other_key s' other kept (present v above within f) =
          present v (omega (arith, above, grant_other k c s other)) within
            (λ t a b. kept t a ∙ f t a b)

      set_key :
          count_at c s + c.cost ≤ r.limit
          → count_at c s ≡ 0
          → Counted c.now to k g s
          → Counted c.now to k
              (g + grant k c s)
              (R.set_ex c.now (redis_key c.key) c.cost (r.period / second) s)
      set_key fits unused h = elim (Bool-cases (str_eq (redis_key c.key) (redis_key k))) [
        | inl same ↦
            present c.cost (omega (arith, nothing_granted same unused h, grant-le k c s))
              (omega arith)
              (λ t a b. ground (
                arith,
                law.get-set_ex c.now t (redis_key c.key) (redis_key k) c.cost (r.period / second) s
                    a long,
                same,
              ))
        | inr other ↦
            other_key (R.set_ex c.now (redis_key c.key) c.cost (r.period / second) s) other
              (λ t a. ground (
                arith,
                law.get-set_ex c.now t (redis_key c.key) (redis_key k) c.cost (r.period / second) s
                    a long,
                other,
              ))
              h
      ]

      -- The key is there: its counter is not 0.
      is_there : 0 < count_at c s → R.get c.now (redis_key c.key) s ≢ none
      is_there used = λ missing. ground (arith, missing)

      added :
          str_eq (redis_key c.key) (redis_key k) ≡ true
          → count_at c s + c.cost ≤ r.limit
          → 0 < count_at c s
          → Counted c.now to k g s
          → Counted c.now to k (g + grant k c s) (R.incr_by c.now (redis_key c.key) c.cost s)
      added same fits used (absent none_yet f) =
          absurd (ground (arith, found_count same, f c.now (omega arith) before))
      added same fits used (present v above within f) =
          present (v + c.cost) (omega (arith, above, grant-le k c s))
            (ground (arith, found_count same, f c.now (omega arith) before))
            (λ t a b. ground (
              arith,
              law.get-incr_by c.now t (redis_key c.key) (redis_key k) c.cost s a (is_there used),
              f t a b,
              same,
            ))

      incr_key :
          count_at c s + c.cost ≤ r.limit
          → 0 < count_at c s
          → Counted c.now to k g s
          → Counted c.now to k (g + grant k c s) (R.incr_by c.now (redis_key c.key) c.cost s)
      incr_key fits used h = elim (Bool-cases (str_eq (redis_key c.key) (redis_key k))) [
        | inl same ↦ added same fits used h
        | inr other ↦
            other_key (R.incr_by c.now (redis_key c.key) c.cost s) other
              (λ t a. ground (
                arith,
                law.get-incr_by c.now t (redis_key c.key) (redis_key k) c.cost s a (is_there used),
                other,
              ))
              h
      ]

      pub step : Counted c.now to k g s → Counted c.now to k (g + grant k c s) (allow R r c s).1
      step h = elim (allow-cases c s) [
        | inl (kept, refused) ↦
            subst (Counted c.now to k (g + grant k c s)) (sym kept)
              (subst (λ n. Counted c.now to k n s) (refused_grant g k c s refused) h)
        | inr (inl (fits, unused, set)) ↦
            subst (Counted c.now to k (g + grant k c s)) (sym set) (set_key fits unused h)
        | inr (inr (fits, used, added)) ↦
            subst (Counted c.now to k (g + grant k c s)) (sym added) (incr_key fits used h)
      ]
