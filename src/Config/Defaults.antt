-- ===== src/Config/Defaults.antt =====
-- internal/config/config.go: what `setDefaults` leaves as it is, and what it makes sure of.
use aigateway.Prelude.{
  ℕ, ◌≡◌, ◌<◌, ◌≢◌, refl, String, false, List, [], ◌∷◌, arith, eq_iff, Bool-cases, inl, inr,
}
use aigateway.Float.{Float64}
use aigateway.Config.Types.{
  CorsConfig, ServerConfig, LoggingConfig, TelemetryConfig, CacheConfig, StaticThresholds,
  AnalyticsConfig, BudgetsConfig, Config,
}
use aigateway.Config.{
  or_text, or_number, or_texts, is_zero, or_float, cors_defaults, server_defaults, logging_defaults,
  telemetry_defaults, cache_defaults, static_defaults, analytics_defaults, budgets_defaults,
  set_defaults,
}

or_text_idem : (s d : String) → or_text (or_text s d) d ≡ or_text s d
unfolding or_text
or_text_idem s d = ground (arith, eq_iff s "")

or_text_filled : (s d : String) → d ≢ "" → or_text s d ≢ ""
unfolding or_text
or_text_filled s d h e = ground (arith, eq_iff s "", h, e)

or_number_idem : (n d : ℕ) → or_number (or_number n d) d ≡ or_number n d
unfolding or_number
or_number_idem n d = ground arith

or_number_pos : (n d : ℕ) → 0 < d → 0 < or_number n d
unfolding or_number
or_number_pos n d h = ground arith

or_texts_idem : (xs d : List String) → or_texts (or_texts xs d) d ≡ or_texts xs d
unfolding or_texts
or_texts_idem [] [] = refl
or_texts_idem [] (x ∷ xs) = refl
or_texts_idem (x ∷ xs) d = refl

cors_defaults_idem : (c : CorsConfig) → cors_defaults (cors_defaults c) ≡ cors_defaults c
unfolding cors_defaults
cors_defaults_idem c = elim (Bool-cases c.enabled) [
  | inl on ↦ simp (on, or_texts_idem, or_number_idem)
  | inr off ↦ ground (arith, off)
]

server_defaults_idem : (s : ServerConfig) → server_defaults (server_defaults s) ≡ server_defaults s
unfolding server_defaults
server_defaults_idem s = simp (or_text_idem, or_number_idem, cors_defaults_idem)

logging_defaults_idem :
    (l : LoggingConfig) → logging_defaults (logging_defaults l) ≡ logging_defaults l
unfolding logging_defaults
logging_defaults_idem l = simp or_text_idem

telemetry_defaults_idem :
    (t : TelemetryConfig) → telemetry_defaults (telemetry_defaults t) ≡ telemetry_defaults t
unfolding telemetry_defaults
telemetry_defaults_idem t = simp or_text_idem

cache_defaults_idem : (c : CacheConfig) → cache_defaults (cache_defaults c) ≡ cache_defaults c
unfolding cache_defaults
cache_defaults_idem c = simp (or_text_idem, or_number_idem)

module _ (fl : Float64) (tells : (n : ℕ) → 0 < n → is_zero fl (fl.of_int n) ≡ false) where
  open fl use {F, of_int}

  or_float_idem :
      (x : F) (n : ℕ)
      → 0 < n
      → or_float fl (or_float fl x (of_int n)) (of_int n) ≡ or_float fl x (of_int n)
  unfolding or_float
  or_float_idem x n h = ground (arith, tells n h)

  or_float_set : (x : F) (n : ℕ) → 0 < n → is_zero fl (or_float fl x (of_int n)) ≡ false
  unfolding or_float
  or_float_set x n h = ground (arith, tells n h)

  static_defaults_idem :
      (t : StaticThresholds F) → static_defaults fl (static_defaults fl t) ≡ static_defaults fl t
  unfolding static_defaults
  static_defaults_idem t =
      let twenty = or_float_idem t.error_rate_max 20 (omega arith) in
      let fifty = or_float_idem t.cost_per_minute_max 50 (omega arith) in
      simp (or_number_idem, twenty, fifty)

  analytics_defaults_idem :
      (a : AnalyticsConfig F)
      → analytics_defaults fl (analytics_defaults fl a) ≡ analytics_defaults fl a
  unfolding analytics_defaults
  analytics_defaults_idem a =
      let three = or_float_idem a.anomaly_detection.baseline.stddev_threshold 3 (omega arith) in
      simp (or_number_idem, three, static_defaults_idem)

  budgets_defaults_idem :
      (b : BudgetsConfig F) → budgets_defaults fl (budgets_defaults fl b) ≡ budgets_defaults fl b
  unfolding budgets_defaults
  budgets_defaults_idem b = simp or_number_idem

  -- What the rest of the gateway relies on: no setting is left at nought.
  pub record IsComplete (c : Config F) : Type 0 where
    pub host : c.server.host ≢ ""
    pub port : 0 < c.server.port
    pub admin_port : 0 < c.server.admin_port
    pub read_timeout : 0 < c.server.read_timeout
    pub write_timeout : 0 < c.server.write_timeout
    pub ttl : 0 < c.cache.ttl
    pub max_size : 0 < c.cache.max_size
    pub retention_hours : 0 < c.analytics.retention_hours
    pub evaluation_interval : 0 < c.analytics.anomaly_detection.evaluation_interval
    pub error_rate_max : is_zero fl c.analytics.anomaly_detection.static.error_rate_max ≡ false
    pub warn_at : 0 < c.budgets.global.warn_at

  -- The defaults leave no setting that counts at nought, and to fill them in again changes nothing;
  -- where the numbers from 1 on are not nought as floats.
  pub set_defaults_stable :
      (c : Config F)
      → IsComplete (set_defaults fl c) × (set_defaults fl (set_defaults fl c) ≡ set_defaults fl c)
  unfolding set_defaults
  set_defaults_stable c = (
    record {
      host = unfold server_defaults in or_text_filled c.server.host "0.0.0.0" (λ e. cc);
      port = unfold server_defaults in or_number_pos c.server.port 8080 (omega arith);
      admin_port = unfold server_defaults in or_number_pos c.server.admin_port 8081 (omega arith);
      read_timeout =
          unfold server_defaults in
          or_number_pos c.server.read_timeout 30_000_000_000 (omega arith);
      write_timeout =
          unfold server_defaults in
          or_number_pos c.server.write_timeout 120_000_000_000 (omega arith);
      ttl = unfold cache_defaults in or_number_pos c.cache.ttl 300_000_000_000 (omega arith);
      max_size = unfold cache_defaults in or_number_pos c.cache.max_size 1000 (omega arith);
      retention_hours =
          unfold analytics_defaults in or_number_pos c.analytics.retention_hours 48 (omega arith);
      evaluation_interval =
          unfold analytics_defaults in
          or_number_pos c.analytics.anomaly_detection.evaluation_interval 60_000_000_000
            (omega arith);
      error_rate_max =
          unfold analytics_defaults static_defaults in
          or_float_set c.analytics.anomaly_detection.static.error_rate_max 20 (omega arith);
      warn_at = unfold budgets_defaults in or_number_pos c.budgets.global.warn_at 90 (omega arith);
    },
    simp (
      server_defaults_idem, or_text_idem, logging_defaults_idem, telemetry_defaults_idem,
      cache_defaults_idem, analytics_defaults_idem, budgets_defaults_idem,
    ),
  )
