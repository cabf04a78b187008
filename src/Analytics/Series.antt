-- ===== src/Analytics/Series.antt =====
-- internal/analytics/collector.go: the ring buffer of a time series holds the latest minutes.
use native.Mathlib.Nat.{mod-lt}
use aigateway.Prelude.{
  ℕ, zero, suc, ◌+◌, ◌-◌, ◌%◌, ◌≤◌, ◌<◌, ◌≡◌, refl, sym, ap, subst, ◌∙◌, true, false, List, [], ◌∷◌,
  reverse, map, arith, min, length, take, get_or, set, ltb, ◌==◌, if◌then◌else◌, length-set,
  length-replicate, get_or-set_self, get_or-set_ne, take_step, reverse_snoc, Bool-cases, inl, inr,
}
use aigateway.Prelude.Rings.{slot_first, slot_next, slot_away, slot_apart}
use aigateway.Float.{Float64}
use aigateway.Analytics.{
  DataPoint, MetricBucket, TimeSeries, Sorting, no_bucket, truncate_minute, add_to_bucket,
  bucket_of, new_time_series, current_index, is_current, record_point, summarize, buckets_from,
  recent_buckets,
}

module _ (fl : Float64) where
  open fl use {F}

  -- The minutes of some points, the latest first: a point of the latest minute is added to it, any other
  -- begins one.
  unfoldable pub record_minute : DataPoint F → List (MetricBucket F) → List (MetricBucket F)
  record_minute dp [] = bucket_of fl dp ∷ []
  record_minute dp (b ∷ bs) =
      if b.timestamp == truncate_minute dp.timestamp
      then add_to_bucket fl dp b ∷ bs
      else bucket_of fl dp ∷ b ∷ bs

  -- The slot of the k-th latest minute.
  pub slot : ℕ → TimeSeries F → ℕ
  slot k ts = (ts.pos + ts.size - 1 - k) % ts.size

  slot_latest : (ts : TimeSeries F) → slot 0 ts ≡ current_index fl ts
  unfolding slot
  slot_latest ts =
      let same : ts.pos + ts.size - 1 - 0 ≡ ts.pos + ts.size - 1 = omega arith in
      ap (λ j. j % ts.size) same

  pub record Holds (ts : TimeSeries F) (ms : List (MetricBucket F)) : Type 0 where
    pub size_pos : 0 < ts.size
    pub sized : length ts.buckets ≡ ts.size
    pub in_range : ts.pos < ts.size
    pub counted : ts.count ≡ min (length ms) ts.size
    pub shows :
        (k : ℕ)
        → k < ts.count
        → get_or ts.buckets (slot k ts) (no_bucket fl) ≡ get_or ms k (no_bucket fl)

  new_time_series-Holds : (n : ℕ) → 0 < n → Holds (new_time_series fl n) []
  unfolding new_time_series
  new_time_series-Holds n h = record {
    size_pos = h;
    sized = length-replicate n (no_bucket fl);
    in_range = h;
    counted = omega arith;
    shows = λ k lt. elim lt [ ];
  }

  -- A point that begins a minute.
  abbrev pushed : MetricBucket F → TimeSeries F → TimeSeries F
  pushed b ts = record ts {
    buckets = set ts.buckets ts.pos b;
    pos = (ts.pos + 1) % ts.size;
    count = if ltb ts.count ts.size then ts.count + 1 else ts.count;
  }

  pushed-shows :
      (b : MetricBucket F) (ts : TimeSeries F) (ms : List (MetricBucket F))
      → Holds ts ms
      → (k : ℕ) → k < (pushed b ts).count
      → get_or (pushed b ts).buckets (slot k (pushed b ts)) (no_bucket fl)
        ≡ get_or (b ∷ ms) k (no_bucket fl)
  unfolding slot
  pushed-shows b ts ms h zero lt =
      rw (slot_first ts.pos ts.size h.in_range)
        (get_or-set_self ts.buckets ts.pos b (no_bucket fl) (omega (arith, h.sized, h.in_range)))
  pushed-shows b ts ms h (suc k) lt =
      let room : suc k < ts.size = ground (arith, h.counted) in
      rw (slot_next ts.pos ts.size k h.in_range room) (
        get_or-set_ne ts.buckets ts.pos (slot k ts) b (no_bucket fl)
          (slot_away ts.pos ts.size k h.in_range room)
        ∙ h.shows k (ground arith))

  pushed-Holds :
      (b : MetricBucket F) (ts : TimeSeries F) (ms : List (MetricBucket F))
      → Holds ts ms
      → Holds (pushed b ts) (b ∷ ms)
  pushed-Holds b ts ms h = record {
    size_pos = h.size_pos;
    sized = length-set ts.buckets ts.pos b ∙ h.sized;
    in_range = mod-lt (ts.pos + 1) h.size_pos;
    counted = ground (arith, h.counted);
    shows = pushed-shows b ts ms h;
  }

  -- A point of the latest minute.
  abbrev replaced : MetricBucket F → TimeSeries F → TimeSeries F
  replaced b ts = record ts { buckets = set ts.buckets (current_index fl ts) b }

  replaced-shows :
      (b old : MetricBucket F) (ts : TimeSeries F) (ms : List (MetricBucket F))
      → Holds ts (old ∷ ms)
      → (k : ℕ) → k < ts.count
      → get_or (replaced b ts).buckets (slot k ts) (no_bucket fl) ≡ get_or (b ∷ ms) k (no_bucket fl)
  unfolding slot
  replaced-shows b old ts ms h zero lt =
      let current = current_index fl ts in
      subst (λ j. get_or (set ts.buckets current b) j (no_bucket fl) ≡ b) (sym (slot_latest ts))
        (get_or-set_self ts.buckets current b (no_bucket fl)
          (subst (λ n. current < n) (sym h.sized) (mod-lt (ts.pos + ts.size - 1) h.size_pos)))
  replaced-shows b old ts ms h (suc k) lt =
      let room : suc k < ts.size = ground (arith, h.counted) in
      get_or-set_ne ts.buckets (current_index fl ts) (slot (suc k) ts) b (no_bucket fl)
        (slot_apart ts.pos ts.size k h.in_range room)
      ∙ h.shows (suc k) lt

  replaced-Holds :
      (b old : MetricBucket F) (ts : TimeSeries F) (ms : List (MetricBucket F))
      → Holds ts (old ∷ ms)
      → Holds (replaced b ts) (b ∷ ms)
  unfolding slot
  replaced-Holds b old ts ms h = record {
    size_pos = h.size_pos;
    sized = length-set ts.buckets (current_index fl ts) b ∙ h.sized;
    in_range = h.in_range;
    counted = h.counted;
    shows = replaced-shows b old ts ms h;
  }

  record_point-Holds :
      (dp : DataPoint F) (ts : TimeSeries F) (ms : List (MetricBucket F))
      → Holds ts ms
      → Holds (record_point fl dp ts) (record_minute dp ms)
  unfolding record_point record_minute slot
  record_point-Holds dp ts [] h =
      let new : record_point fl dp ts ≡ pushed (bucket_of fl dp) ts = ground (arith, h.counted) in
      subst (λ t. Holds t (bucket_of fl dp ∷ [])) (sym new) (pushed-Holds (bucket_of fl dp) ts [] h)
  record_point-Holds dp ts (b ∷ ms) h =
      let latest : get_or ts.buckets (current_index fl ts) (no_bucket fl) ≡ b =
        subst (λ j. get_or ts.buckets j (no_bucket fl) ≡ b) (slot_latest ts)
          (h.shows 0 (ground (arith, h.counted, h.size_pos))) in
      let some_held : ltb 0 ts.count ≡ true = ground (arith, h.counted, h.size_pos) in
      elim (Bool-cases (b.timestamp == truncate_minute dp.timestamp)) [
        | inl same ↦
            let b' = add_to_bucket fl dp b in
            let current : is_current fl dp ts ≡ true = rw (some_held, latest) same in
            let added : record_point fl dp ts ≡ replaced b' ts = ground (arith, current, latest) in
            let kept : record_minute dp (b ∷ ms) ≡ b' ∷ ms = ground (arith, same) in
            subst (λ l. Holds (record_point fl dp ts) l) (sym kept)
              (subst (λ t. Holds t (b' ∷ ms)) (sym added) (replaced-Holds b' b ts ms h))
        | inr other ↦
            let b' = bucket_of fl dp in
            let current : is_current fl dp ts ≡ false = rw (some_held, latest) other in
            let added : record_point fl dp ts ≡ pushed b' ts = ground (arith, current) in
            let begun : record_minute dp (b ∷ ms) ≡ b' ∷ b ∷ ms = ground (arith, other) in
            subst (λ l. Holds (record_point fl dp ts) l) (sym begun)
              (subst (λ t. Holds t (b' ∷ b ∷ ms)) (sym added) (pushed-Holds b' ts (b ∷ ms) h))
      ]

  -- Points that were recorded, the latest first: the series, and its minutes.
  unfoldable pub recorded : List (DataPoint F) → TimeSeries F → TimeSeries F
  recorded [] ts = ts
  recorded (dp ∷ dps) ts = record_point fl dp (recorded dps ts)

  unfoldable pub minutes_of : List (DataPoint F) → List (MetricBucket F)
  unfolding record_minute
  minutes_of [] = []
  minutes_of (dp ∷ dps) = record_minute dp (minutes_of dps)

  recorded-Holds :
      (n : ℕ) (dps : List (DataPoint F))
      → 0 < n
      → Holds (recorded dps (new_time_series fl n)) (minutes_of dps)
  unfolding recorded minutes_of
  recorded-Holds n [] h = new_time_series-Holds n h
  recorded-Holds n (dp ∷ dps) h = record_point-Holds dp _ (minutes_of dps) (recorded-Holds n dps h)

  size-recorded :
      (n : ℕ) (dps : List (DataPoint F)) → (recorded dps (new_time_series fl n)).size ≡ n
  unfolding recorded record_point new_time_series
  size-recorded n [] = refl
  size-recorded n (dp ∷ dps) = ground (arith, size-recorded n dps)

  module _ (ceil : F → F) (sort : Sorting) where
    buckets_from-take :
        (ts : TimeSeries F) (ms : List (MetricBucket F)) (left : ℕ)
        → Holds ts ms
        → left ≤ ts.count
        → buckets_from fl ceil sort ts left ≡ map (summarize fl ceil sort) (reverse (take left ms))
    unfolding buckets_from slot
    buckets_from-take ts ms zero h le = refl
    buckets_from-take ts ms (suc left) h le =
        let index : ts.pos + ts.size - suc left ≡ ts.pos + ts.size - 1 - left = omega arith in
        let shown = take_step ms (no_bucket fl) left (omega (arith, h.counted)) in
        let turned =
          ap reverse shown ∙ reverse_snoc (take left ms) (get_or ms left (no_bucket fl)) in
        rw (index, h.shows left le, buckets_from-take ts ms left h (omega arith))
          (sym (ap (map (summarize fl ceil sort)) turned))

    -- After any points `RecentBuckets n` summarizes the latest minutes that have a point, oldest first: as
    -- many as were asked for, as there are and as the series retains.
    pub recent_buckets_exact :
        (size n : ℕ) (dps : List (DataPoint F))
        → 0 < size
        → recent_buckets fl ceil sort n (recorded dps (new_time_series fl size))
          ≡ map
              (summarize fl ceil sort)
              (reverse (take (min n (min (length (minutes_of dps)) size)) (minutes_of dps)))
    unfolding recent_buckets
    recent_buckets_exact size n dps h =
        let ts = recorded dps (new_time_series fl size) in
        let ms = minutes_of dps in
        let held = recorded-Holds size dps h in
        let asked : ℕ = if ltb ts.count n then ts.count else n in
        buckets_from-take ts ms asked held (ground arith)
        ∙ ap (λ k. map (summarize fl ceil sort) (reverse (take k ms)))
            (ground (arith, held.counted, size-recorded size dps))
