-- ===== src/Gateway/Setup.antt =====
-- internal/gateway/handler.go: the making of a handler, the worker of the database queue, and the list
-- of models.
use aigateway.Prelude.{ℕ, Bool, Option, none, some, List, [], ◌∷◌, ◌==◌, if◌then◌else◌}
use aigateway.Float.{Float64}
use aigateway.Types.{ChatCompletionResponse, Model, ModelList}
use aigateway.Provider.{Provider, Registry, all_models}
use aigateway.Router.{Router}
use aigateway.Policy.{Engine}
use aigateway.Usage.{Store}
use aigateway.Cache.{MemoryCache}
use aigateway.Webhook.{Notifier}
use aigateway.Budget.{Manager}
use aigateway.Gateway.{UsageEvent, Handler}

-- The bound on a body, where none is given. A negative bound is 0 here.
unfoldable pub body_limit : ℕ → ℕ
body_limit max_body_size = if max_body_size == 0 then 10_485_760 else max_body_size

-- There is a queue exactly if there is a database.
unfoldable pub new_handler :
    {fl : Float64} {C : Type 0}
    → Router
    → Option Engine
    → Option (Store fl.F)
    → Option (MemoryCache ChatCompletionResponse)
    → Option Notifier
    → Bool
    → Option C
    → Option (Manager fl.F)
    → Handler fl C
new_handler router policy usage cache webhook has_store analytics budget = record {
  router = router;
  policy = policy;
  usage = usage;
  cache = cache;
  webhook = webhook;
  db_queue = if has_store then some [] else none;
  analytics = analytics;
  budget = budget;
}

-- One round of `dbWorker`: the oldest event leaves the queue, and is recorded.
unfoldable pub db_worker : List UsageEvent → Option UsageEvent × List UsageEvent
db_worker [] = (none, [])
db_worker (e ∷ q) = (some e, q)

unfoldable pub list_models :
    (Provider → Option (List Model)) → (Registry → Registry) → Registry → ModelList
list_models models order reg = record { object = "list"; models = all_models models order reg }
