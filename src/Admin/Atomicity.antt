-- ===== src/Admin/Atomicity.antt =====
-- internal/admin/admin.go with the adapters of internal/rollout and internal/analytics: a request that
-- is not answered with success.
use aigateway.Prelude.{
  ◌≡◌, refl, sym, ap, ◌∙◌, ◌≢◌, ℕ, String, Bool, true, false, Option, none, some, List, [], ltb,
  arith,
}
use aigateway.Prelude.Results.{Result, ok, err, panics}
use aigateway.Rollout.Manager.{Request}
use aigateway.Middleware.Http.{HttpRequest, Headers, Step, go, fail}
use aigateway.Middleware.Cors.{TextFormat, cors}
use aigateway.Admin.{
  AnalyticsProvider, BudgetProvider, RolloutManager, Server, Answer, Body, status_ok, rollouts,
}
use aigateway.Admin.Handlers.{
  AdminLibrary, change_rollout, rollout_pause_handler, rollout_resume_handler,
  rollout_rollback_handler, rollouts_create_handler, create_decoded, create_parsed, answered_with,
  with_rollouts, changed, acknowledged, CreateRolloutRequest, request_of, baseline_providers,
  no_rollout_manager, no_analytics, alert_acknowledge_handler,
}
use aigateway.Admin.Routes.{
  Endpoint, acknowledge, create, pause, resume, rollback, Chi, Reply, answer, find_route, routes,
  handle, serve, routed, after_cors, replied,
}

-- An answer with a status below 400.
unfoldable pub is_success : {F J : Type 0} → Reply F J → Bool
is_success (answer headers a) = ltb a.status 400
is_success _ = false

abbrev is_ok : {F J : Type 0} → Result (Answer F J) → Bool
is_ok (ok a) = ltb a.status 400
is_ok _ = false

-- What fails changes nothing.
pub record IsAtomic {F J : Type 0} (rm : RolloutManager F J) : Type 0 where
  pub create_fails :
      (q : Request F) (s : rm.S)
      → ((j : J) → (rm.create_rollout q s).0 ≢ ok j)
      → (rm.create_rollout q s).1 ≡ s
  pub pause_fails :
      (id : String) (s : rm.S) → (rm.pause_rollout id s).0 ≢ ok tt → (rm.pause_rollout id s).1 ≡ s
  pub resume_fails :
      (id : String) (s : rm.S) → (rm.resume_rollout id s).0 ≢ ok tt → (rm.resume_rollout id s).1 ≡ s
  pub rollback_fails :
      (id : String) (s : rm.S)
      → (rm.rollback_rollout id s).0 ≢ ok tt
      → (rm.rollback_rollout id s).1 ≡ s

pub record IsAcknowledging {F : Type 0} (ap' : AnalyticsProvider F) : Type 0 where
  pub acknowledge_fails :
      (id : String) (s : ap'.S)
      → (ap'.acknowledge_alert id s).0 ≡ false
      → (ap'.acknowledge_alert id s).1 ≡ s

module _ {F J : Type 0} (rm : RolloutManager F J) (ap' : AnalyticsProvider F)
    (bp : BudgetProvider F) (lib : AdminLibrary F) where
  -- The server with its own rollouts put back.
  with_rollouts_self :
      (m m' : rm.S) (s : Server rm ap' bp)
      → s.rollout_mgr ≡ some m
      → m' ≡ m
      → with_rollouts rm ap' bp lib m' s ≡ s
  with_rollouts_self m m' s given same =
      ap (λ o. record s { rollout_mgr = o }) (ap some same ∙ sym given)

  answered_fails :
      {A : Type 0} (good bad : ℕ) (show : A → Body F J) (done : Result A)
      → ltb good 400 ≡ true
      → is_ok (answered_with rm ap' bp lib good bad show done) ≡ false
      → (a : A) → done ≢ ok a
  answered_fails good bad show (ok b) fine refused a = λ h. ground (arith, fine, refused)
  answered_fails good bad show (err e) fine refused a = λ h. cc
  answered_fails good bad show panics fine refused a = λ h. cc

  -- A handler that needs a part of the server.
  optional_fails :
      {A : Type 0} (s : Server rm ap' bp) (o : Option A) (missing : Result (Answer F J))
      (k : A → Result (Answer F J) × Server rm ap' bp)
      → ((a : A) → o ≡ some a → is_ok (k a).0 ≡ false → (k a).1 ≡ s)
      → is_ok
          (elim o as (λ _. Result (Answer F J) × Server rm ap' bp) [
            | none ↦ (missing, s)
            | some a ↦ k a
          ]).0
        ≡ false
      → (elim o as (λ _. Result (Answer F J) × Server rm ap' bp) [
        | none ↦ (missing, s)
        | some a ↦ k a
      ]).1
        ≡ s
  optional_fails s none missing k fails refused = refl
  optional_fails s (some a) missing k fails refused = fails a refl refused

  change_rollout_fails :
      (change : rm.S → Result (Unit {0}) × rm.S)
      → ((m : rm.S) → (change m).0 ≢ ok tt → (change m).1 ≡ m)
      → (s : Server rm ap' bp) → is_ok (change_rollout rm ap' bp lib change s).0 ≡ false
      → (change_rollout rm ap' bp lib change s).1 ≡ s
  unfolding change_rollout
  change_rollout_fails change fails s refused =
      optional_fails s s.rollout_mgr (ok (no_rollout_manager rm ap' bp lib))
        (λ m. changed rm ap' bp lib s (change m))
        (λ m given failed.
          with_rollouts_self m (change m).1 s given
            (fails m (answered_fails 200 400 (λ _. status_ok) (change m).0 refl failed tt)))
        refused

  create_parsed_fails :
      IsAtomic rm
      → (req : CreateRolloutRequest F) (m : rm.S) (s : Server rm ap' bp) (window : Result ℕ)
      → s.rollout_mgr ≡ some m
      → is_ok (create_parsed rm ap' bp lib req m s window).0 ≡ false
      → (create_parsed rm ap' bp lib req m s window).1 ≡ s
  create_parsed_fails atomic req m s (err e) given refused = refl
  create_parsed_fails atomic req m s panics given refused = refl
  create_parsed_fails atomic req m s (ok window) given refused =
      let q =
        request_of rm ap' bp lib req window
          (baseline_providers rm ap' bp lib req.route_model s.cfg.routes) in
      with_rollouts_self m (rm.create_rollout q m).1 s given (
        atomic.create_fails q m
          (answered_fails 201 409 rollouts (rm.create_rollout q m).0 refl refused))

  create_decoded_fails :
      IsAtomic rm
      → (m : rm.S) (s : Server rm ap' bp) (req : Result (CreateRolloutRequest F))
      → s.rollout_mgr ≡ some m
      → is_ok (create_decoded rm ap' bp lib m s req).0 ≡ false
      → (create_decoded rm ap' bp lib m s req).1 ≡ s
  create_decoded_fails atomic m s (err e) given refused = refl
  create_decoded_fails atomic m s panics given refused = refl
  create_decoded_fails atomic m s (ok req) given refused =
      create_parsed_fails atomic req m s (lib.parse_duration req.observation_window) given refused

  acknowledged_fails :
      (s : Server rm ap' bp) (a : ap'.S) (run : Bool × ap'.S)
      → s.analytics_provider ≡ some a
      → (run.0 ≡ false → run.1 ≡ a)
      → is_ok (acknowledged rm ap' bp lib s run).0 ≡ false
      → (acknowledged rm ap' bp lib s run).1 ≡ s
  acknowledged_fails s a (true, a') given same refused = cc
  acknowledged_fails s a (false, a') given same refused =
      ap (λ o. record s { analytics_provider = o }) (ap some (same refl) ∙ sym given)

  is_ok_of_success :
      (headers : Headers) (result : Result (Answer F J))
      → is_success (replied rm ap' bp lib headers result) ≡ false
      → is_ok result ≡ false
  unfolding is_success
  is_ok_of_success headers (ok a) h = h
  is_ok_of_success headers (err e) h = refl
  is_ok_of_success headers panics h = refl

  module _ (atomic : IsAtomic rm) (acknowledging : IsAcknowledging ap') where
    handle_fails :
        (e : Endpoint) (id : String) (body : Option (List ℕ)) (s : Server rm ap' bp)
        → is_ok (handle rm ap' bp lib e id body s).0 ≡ false
        → (handle rm ap' bp lib e id body s).1 ≡ s
    unfolding handle rollout_pause_handler rollout_resume_handler rollout_rollback_handler
        rollouts_create_handler alert_acknowledge_handler
    handle_fails acknowledge id body s refused =
        optional_fails s s.analytics_provider (ok (no_analytics rm ap' bp lib))
          (λ a. acknowledged rm ap' bp lib s (ap'.acknowledge_alert id a))
          (λ a given failed.
            acknowledged_fails s a (ap'.acknowledge_alert id a) given
              (acknowledging.acknowledge_fails id a) failed)
          refused
    handle_fails create id body s refused =
        optional_fails s s.rollout_mgr (ok (no_rollout_manager rm ap' bp lib))
          (λ m. create_decoded rm ap' bp lib m s (lib.decode body))
          (λ m given failed. create_decoded_fails atomic m s (lib.decode body) given failed) refused
    handle_fails pause id body s refused =
        change_rollout_fails (rm.pause_rollout id) (atomic.pause_fails id) s refused
    handle_fails resume id body s refused =
        change_rollout_fails (rm.resume_rollout id) (atomic.resume_fails id) s refused
    handle_fails rollback id body s refused =
        change_rollout_fails (rm.rollback_rollout id) (atomic.rollback_fails id) s refused
    handle_fails _ id body s refused = refl

    routed_fails :
        (chi : Chi) (r : HttpRequest) (headers : Headers) (s : Server rm ap' bp)
        (found : Option (Endpoint × String))
        → is_success (routed rm ap' bp lib chi r headers s found).0 ≡ false
        → (routed rm ap' bp lib chi r headers s found).1 ≡ s
    unfolding is_success
    routed_fails chi r headers s none refused = refl
    routed_fails chi r headers s (some (e, id)) refused =
        handle_fails e id r.body s
          (is_ok_of_success headers (handle rm ap' bp lib e id r.body s).0 refused)

    after_cors_fails :
        (chi : Chi) (r : HttpRequest) (s : Server rm ap' bp) (step : Step Headers)
        → is_success (after_cors rm ap' bp lib chi r s step).0 ≡ false
        → (after_cors rm ap' bp lib chi r s step).1 ≡ s
    after_cors_fails chi r s (fail f) refused = refl
    after_cors_fails chi r s (go headers) refused =
        routed_fails chi r headers s (find_route chi r.http_method r.path routes) refused

    -- With managers of rollouts and alerts that change nothing when they fail, a request to the admin port
    -- that is not answered with a status below 400 leaves the server as it was: a malformed or refused
    -- one, one without a route, a preflight, and one whose handler panics.
    pub refused_changes_nothing :
        (text : TextFormat) (chi : Chi) (r : HttpRequest) (s : Server rm ap' bp)
        → is_success (serve rm ap' bp lib text chi r s).0 ≡ false
        → (serve rm ap' bp lib text chi r s).1 ≡ s
    unfolding serve
    refused_changes_nothing text chi r s refused =
        after_cors_fails chi r s (cors text s.cfg.server.cors r []) refused
