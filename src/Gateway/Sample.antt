-- ===== src/Gateway/Sample.antt =====
-- A handler for the tests: one request is decoded from any body, the collector counts its points, and
-- one provider answers.
use aigateway.Prelude.{ℕ, ◌+◌, false, Option, none, some, [], ◌∷◌, str_eq}
use aigateway.Float.Whole.{whole}
use aigateway.Types.{ChatCompletionRequest, ChatCompletionResponse}
use aigateway.Config.Types.{TenantConfig}
use aigateway.Config.Sample.{tenant_of}
use aigateway.Middleware.Http.{HttpRequest}
use aigateway.Policy.Sample.{texts}
use aigateway.Budget.{Manager}
use aigateway.Cache.{MemoryCache}
use aigateway.Provider.{Provider}
use aigateway.Router.{Router, replied}
use aigateway.Router.Breaker.{new_circuit_breaker}
use aigateway.Router.Selection.{priority}
use aigateway.Gateway.{Service, Handler, Moment}

abbrev pub hello : ChatCompletionRequest
hello = record {
  model = "gpt-4o";
  messages = record { role = "user"; content = "hello" } ∷ [];
  temperature = none;
  max_tokens = none;
  stream = false;
  top_p = none;
  stop = [];
}

abbrev pub answer : ChatCompletionResponse
answer = record {
  id = "1";
  object = "chat.completion";
  created = 0;
  model = "gpt-4o";
  choices = [];
  usage = record { prompt_tokens = 1; completion_tokens = 2; total_tokens = 3 };
}

abbrev pub service : Service whole ℕ
service = record {
  max_body_size = 100;
  decode = λ bytes. some hello;
  join = λ ts sep. sep;
  to_text = λ bytes. "leak";
  sha256_hex = λ s. s;
  error_text = λ e. "error";
  text = texts;
  messages = record {
    exhausted_text = λ scope limit current. "budget exhausted";
    used_text = λ scope pct. "budget used";
  };
  recorder = record { record_data = λ dp n. n + 1 };
}

abbrev pub openai : Provider
openai = record { name = "openai" }

abbrev pub router : Router
router = record {
  routes =
      record { pattern = "gpt-4o"; providers = "openai" ∷ []; strategy = priority; regions = [] }
      ∷ [];
  registry = ("openai", openai) ∷ [];
  breaker = new_circuit_breaker 3 30;
}

-- The tenant's budget of 50 is used up.
abbrev pub spent : Manager ℕ
spent = record {
  spends = ("acme", record { current_period = 1; accumulated = 51 }) ∷ [];
  scopes =
      record { scope = "tenant"; scope_id = "acme"; limit = 50; alert_at = 80; warn_at = 90 } ∷ [];
}

abbrev pub empty_cache : MemoryCache ChatCompletionResponse
empty_cache = record { entries = []; ttl = 100; max_size = 10; hits = 0; misses = 0; evictions = 0 }

abbrev pub handler : Handler whole ℕ
handler = record {
  router = router;
  policy = none;
  usage = some [];
  cache = some empty_cache;
  webhook = none;
  db_queue = some [];
  analytics = some 0;
  budget = some spent;
}

abbrev pub moment : ℕ → Moment ℕ
moment t = record {
  looked_up = t;
  swept = t;
  stored = t;
  month = 1;
  queued_latency_ms = 5;
  created_at = t;
  latency_ms = 5;
  now = t;
  order = λ m. m;
  rollout = none;
  world = record {
    checked = λ i. t;
    answered = λ i name. replied answer;
    recorded = λ i. t;
    draw = 42;
    matches = str_eq;
  };
  streams = record {
    checked = λ i. t;
    answered = λ i name. replied [];
    recorded = λ i. t;
    draw = 42;
    matches = str_eq;
  };
}

abbrev pub request : HttpRequest
request = record {
  path = "/v1/chat/completions";
  http_method = "POST";
  x_api_key = "k1";
  authorization = "";
  origin = "";
  body = some (1 ∷ []);
}

abbrev pub acme : Option TenantConfig
acme = some (tenant_of "acme" ("k1" ∷ []))
