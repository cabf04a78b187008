-- ===== src/Admin/Access.antt =====
-- internal/admin/admin.go: which requests change the server, and who may send them.
use aigateway.Prelude.{
  ◌≡◌, refl, inl, inr, ◌≢◌, ℕ, String, Bool, true, false, ◌&&◌, Option, none, some, List, [], ◌∷◌,
  All, str_eq, eq_iff, arith, Option-cases, Bool-cases, if◌then◌else◌,
}
use aigateway.Middleware.Http.{HttpRequest, Headers, Step, go, fail}
use aigateway.Middleware.Cors.{TextFormat, cors}
use aigateway.Admin.{AnalyticsProvider, BudgetProvider, RolloutManager, Server}
use aigateway.Admin.Handlers.{AdminLibrary}
use aigateway.Admin.Routes.{
  Endpoint, acknowledge, create, pause, resume, rollback, Chi, Route, find_route, routes, handle,
  serve, routed, after_cors,
}

abbrev pub is_change : Endpoint → Bool
is_change acknowledge = true
is_change create = true
is_change pause = true
is_change resume = true
is_change rollback = true
is_change _ = false

-- A change is asked for with POST.
abbrev IsPosted : Route → Type 0
IsPosted r = is_change r.endpoint ≡ true → r.http_method ≡ "POST"

find_route-IsPosted :
    (chi : Chi) (http_method path : String) (rs : List Route) (e : Endpoint) (id : String)
    → All IsPosted rs
    → find_route chi http_method path rs ≡ some (e, id)
    → is_change e ≡ true
    → http_method ≡ "POST"
unfolding find_route
find_route-IsPosted chi http_method path [] e id h found change = cc
find_route-IsPosted chi http_method path (r ∷ rs) e id h found change =
    elim (Bool-cases (str_eq r.http_method http_method)) [
      | inr other ↦
          find_route-IsPosted chi http_method path rs e id h.1 (ground (arith, other, found)) change
      | inl same ↦ elim (Option-cases (chi.match r.pattern path)) [
        | inl missed ↦
            find_route-IsPosted chi http_method path rs e id h.1
              (ground (arith, same, missed, found)) change
        | inr (id', matched) ↦
            ground (arith, same, matched, found, h.0, eq_iff r.http_method http_method)
      ]
    ]

are_posted : List Route → Bool
are_posted [] = true
are_posted (r ∷ rs) =
    (if is_change r.endpoint then str_eq r.http_method "POST" else true) && are_posted rs

are_posted-IsPosted : (rs : List Route) → are_posted rs ≡ true → All IsPosted rs
unfolding are_posted
are_posted-IsPosted [] h = tt
are_posted-IsPosted (r ∷ rs) h = (
  λ change. ground (arith, h, eq_iff r.http_method "POST"),
  are_posted-IsPosted rs (ground (arith, h)),
)

routes-IsPosted : All IsPosted routes
unfolding routes are_posted
routes-IsPosted = are_posted-IsPosted routes refl

module _ {F J : Type 0} (rm : RolloutManager F J) (ap' : AnalyticsProvider F)
    (bp : BudgetProvider F) (lib : AdminLibrary F) where
  pub handle_reads :
      (e : Endpoint) (id : String) (body : Option (List ℕ)) (s : Server rm ap' bp)
      → is_change e ≡ false
      → (handle rm ap' bp lib e id body s).1 ≡ s
  unfolding handle
  handle_reads acknowledge id body s h = cc
  handle_reads create id body s h = cc
  handle_reads pause id body s h = cc
  handle_reads resume id body s h = cc
  handle_reads rollback id body s h = cc
  handle_reads _ id body s h = refl

  routed_reads :
      (chi : Chi) (r : HttpRequest) (headers : Headers) (s : Server rm ap' bp)
      (found : Option (Endpoint × String))
      → ((e : Endpoint) (id : String) → found ≡ some (e, id) → is_change e ≡ false)
      → (routed rm ap' bp lib chi r headers s found).1 ≡ s
  routed_reads chi r headers s none reading = refl
  routed_reads chi r headers s (some (e, id)) reading =
      handle_reads e id r.body s (reading e id refl)

  after_cors_reads :
      (chi : Chi) (r : HttpRequest) (s : Server rm ap' bp) (step : Step Headers)
      → r.http_method ≢ "POST"
      → (after_cors rm ap' bp lib chi r s step).1 ≡ s
  after_cors_reads chi r s (fail f) other = refl
  after_cors_reads chi r s (go headers) other =
      routed_reads chi r headers s (find_route chi r.http_method r.path routes) (λ e id found.
        elim (Bool-cases (is_change e)) [
          | inr reading ↦ reading
          | inl change ↦ absurd (
              other (
                find_route-IsPosted chi r.http_method r.path routes e id routes-IsPosted found
                  change))
        ])

  -- A request to the admin port that is not a POST leaves the server as it was.
  pub reads_change_nothing :
      (text : TextFormat) (chi : Chi) (r : HttpRequest) (s : Server rm ap' bp)
      → r.http_method ≢ "POST"
      → (serve rm ap' bp lib text chi r s).1 ≡ s
  unfolding serve
  reads_change_nothing text chi r s other =
      after_cors_reads chi r s (cors text s.cfg.server.cors r []) other
