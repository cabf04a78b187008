-- ===== src/Gateway/Request.antt =====
-- cmd/aegisflow/main.go: a request to /v1/chat/completions on its way through the middleware to the
-- handler. The middleware checks the budget with the manager that the handler has.
use aigateway.Prelude.{String, Option, none, some}
use aigateway.Float.{Float64}
use aigateway.Config.Types.{Config}
use aigateway.Middleware.Http.{HttpRequest, go, fail}
use aigateway.Middleware.Limits.{Limiter}
use aigateway.Middleware.Cors.{TextFormat}
use aigateway.Middleware.Chain.{admit}
use aigateway.Budget.{Manager, CheckResult, check}
use aigateway.Gateway.{Service, Handler, Moment}
use aigateway.Gateway.Chat.{Reply, failure, chat_completion}

module _ (fl : Float64) {C S1 S2 : Type 0} (svc : Service fl C) (requests : Limiter S1)
    (tokens : Limiter S2) where
  open fl use {F}

  -- budgetMgr.CheckFunc()
  abbrev pub check_func : Option (Manager F) → Option (String → String → CheckResult)
  check_func none = none
  check_func (some m) = some (λ tenant_id model. check fl svc.messages tenant_id model m)

  unfoldable pub handle_request :
      TextFormat
      → (String → String)
      → Config F
      → Moment F
      → HttpRequest
      → S1
      → S2
      → Handler fl C
      → Reply × S1 × S2 × Handler fl C
  unfolding admit chat_completion
  handle_request text sha256 cfg at r s1 s2 h =
      let (step, s1', s2') = admit requests tokens text sha256 cfg (check_func h.budget) r s1 s2 in
      elim step [
        | fail f ↦ (failure f, s1', s2', h)
        | go a ↦
            let (reply, h') = chat_completion fl svc at r a.tenant a.headers h in
            (reply, s1', s2', h')
      ]
