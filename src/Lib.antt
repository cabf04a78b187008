-- ===== src/Lib.antt =====
-- AegisFlow is a gateway for AI providers: it takes chat completion requests of tenants, limits
-- and caches them, bounds what they cost, routes each to a provider with fallbacks and canary
-- rollouts, and logs them. This library models the core of the gateway and states what makes it
-- correct.
--
-- The parts and their files. Of each part the record and the functions have the names of the
-- source in snake case: `MemoryLimiter.Allow` is `allow`.
--   RateLimit    internal/ratelimit/memory.go: the limiter, a window for each key; Redis the limiter
--                whose counters stand in Redis (redis.go), over a record of the commands and one of
--                the laws that Redis documents.
--   Cache        internal/cache/cache.go: the in-memory cache of responses; Cache/Key its keys, and
--                Redis the cache in Redis.
--   Admin        internal/admin/admin.go: the server of the admin API and the three interfaces that
--                it uses; Handlers, and Routes from a request to its answer. The adapters that fill
--                the interfaces are Rollout/AdminAdapter, Analytics/AdminAdapter and
--                Budget/AdminAdapter, each after the adminadapter.go of its package.
--   Budget       internal/budget/budget.go: spending limits of tenants and models; Budget/Spending
--                has the order of check and spend in internal/gateway/handler.go.
--   Usage        internal/usage: what tenants used, by model (store.go, tracker.go).
--   RequestLog   internal/admin/requestlog.go: the ring buffer of the latest requests.
--   Policy       internal/policy: the filters (filter_keyword.go, filter_regex.go, filter_pii.go) and
--                the engine that asks them in order (engine.go); Wasm the filter that asks a plugin
--                (wasmfilter.go).
--   Provider     internal/provider: the registry of providers (registry.go) and the adapters, one
--                file each: OpenAi (with groq.go, mistral.go, together.go), AzureOpenAi, Anthropic,
--                Gemini, Bedrock, Ollama and Mock; Client has the lines that they share.
--   Router       internal/router: Breaker (fallback.go), Selection (strategy.go), and the walk
--                along providers, regions and routes (router.go); Dispatch has the choice between
--                a rollout, regions and a flat list, Stream the same for streams.
--   Rollout      internal/rollout: Types, Store (memory_store.go), Evaluator, Manager.
--   Types        pkg/types: messages, requests, responses, stream chunks and errors.
--   Config       internal/config/config.go: the types of the configuration (Config/Types), the
--                defaults and the lookup of a tenant by API key; Watcher the watch over the file
--                (watcher.go).
--   Middleware   internal/middleware: the rate limits and the budget check, with Cors (cors.go),
--                Admin (admin_auth.go) and Chain, their order in cmd/aegisflow/main.go.
--   Gateway      internal/gateway/handler.go: the state and the checks of the handler; Chat has
--                `ChatCompletion`, Streaming `handleStream`, Transform transform.go, and Request
--                the middleware and the handler together.
--   Analytics    internal/analytics: the time series, Collecting (the rest of collector.go),
--                Detector (detector.go) and Alerts (alerts.go).
--   Operator     internal/operator/configbuilder.go: `BuildConfig`.
--   Startup      cmd/aegisflow/main.go: what is made of the configuration: limiters, scopes of
--                budgets and policies; Adapters the adapters of the providers that it registers.
--   Webhook      internal/webhook/webhook.go: the notifier, and what it is handed.
-- The middleware lets a request through to the handler, with its tenant; the handler asks the
-- budget, the policy, the cache and the router, and hands what it learns to the usage, the budget,
-- the analytics and the webhook. The detector reads the collector, and the alert manager what it
-- finds. The manager's evaluator reads the request log; the router asks the manager for the active
-- rollout of a model, the registry for providers and the breaker for those to skip. What a
-- provider answers is a parameter of the router; the adapters say what they make of a vendor's answer.
-- The admin API reads all of them, and changes the rollouts and the alerts. The other
-- files of a part hold what is proved of it, and Tests its runs at concrete inputs.
--
-- Conventions. An operation takes the state and returns it with its result; calls follow one
-- another, as the locks of the source order them, and Rollout/Race looks at two that interleave
-- where the source holds no lock. Clock readings are arguments, one for each reading in the
-- source, in nanoseconds. A map is an association list (Prelude/Dict); the order of a `range`
-- over it is an argument, a function that keeps the entries. Counts, sizes and positions are
-- natural numbers, except the round robin's counter, which wraps at 2^64. A calendar month is its
-- number. Floats (Float), SHA-256, regular expressions, the text functions of the libraries,
-- the pattern match of routes, random draws, sorts, and what providers answer are parameters. Loops
-- are structural recursion on the lists they range over, so nothing runs on fuel. Of a vendor's
-- API the HTTP client, the JSON forms and the hashes are parameters; a stream is the list of its reads
-- or objects. A Go function with an error returns a `Result` (Prelude/Results), whose third case is
-- a run-time panic.
--
-- Not modelled: the WASM runtime, the HTTP clients and Redis itself, which are foreign code; the timeout
-- of a plugin, which ends no call of the runtime as it is made, and calls that do not end; logging
-- and metrics, which only show what the other parts hold; reading the configuration file; the
-- operator's calls of Kubernetes; the stores in Postgres, which are SQL; and the command-line client,
-- which prints what the admin API answers.
pub mod Admin
pub mod Analytics
pub mod Budget
pub mod Cache
pub mod Config
pub mod Float
pub mod Gateway
pub mod Middleware
pub mod Operator
pub mod Policy
pub mod Prelude
pub mod Provider
pub mod RateLimit
pub mod RequestLog
pub mod Rollout
pub mod Router
pub mod Startup
pub mod Types
pub mod Usage
pub mod Webhook
