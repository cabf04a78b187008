-- ===== src/Rollout/Manager.antt =====
-- internal/rollout/manager.go over the memory store. Clock readings are arguments; the IDs made
-- from them are a parameter. A failed `Update` of the background loop is dropped, as in the source.
use aigateway.Prelude.{
  ℕ, ◌+◌, String, Bool, true, false, Option, none, some, List, [], ◌∷◌, ◌||◌, not, length, get_or,
  leb, if◌then◌else◌,
}
use aigateway.Float.{Float64}
use aigateway.RequestLog.{RequestEntry}
use aigateway.Rollout.Types.{
  State, running, paused, rolled_back, completed, is_running, is_paused, Rollout,
}
use aigateway.Rollout.Store.{MemoryStore, create, get, update, get_by_model, list}
use aigateway.Rollout.Evaluator.{Decision, Library, evaluate}

pub data Error : Type 0 where
  active_exists : String → Error
  create_failed get_failed update_failed : Error
  cannot_from : State → Error

-- `panics` is the run-time panic of an index out of range.
pub data Result (A : Type 0) : Type 0 where
  ok : A → Result A
  err : Error → Result A
  panics : Result A

infixl 5 ◌>>=◌
abbrev pub ◌>>=◌ : {A B : Type 0} → Result A → (A → Result B) → Result B
ok a >>= f = f a
err e >>= f = err e
panics >>= f = panics

abbrev pub or_fail : {A : Type 0} → Option A → Error → Result A
or_fail none e = err e
or_fail (some a) e = ok a

abbrev pub guard : Bool → Error → Result (Unit {0})
guard true e = ok tt
guard false e = err e

abbrev pub first_stage : List ℕ → Result ℕ
first_stage [] = panics
first_stage (p ∷ ps) = ok p

pub record Request (F : Type 0) : Type 0 where
  pub route_model : String
  pub baseline_providers : List String
  pub canary_provider : String
  pub stages : List ℕ
  pub observation_window : ℕ
  pub error_threshold : F
  pub latency_p95_threshold : ℕ

module _ {F : Type 0} where
  -- The new rollout, by the clock at `now`; the first stage must exist.
  abbrev pub new_rollout : (ℕ → String) → ℕ → ℕ → Request F → Rollout F
  new_rollout id_of now first q = record {
    id = id_of now;
    route_model = q.route_model;
    baseline_providers = q.baseline_providers;
    canary_provider = q.canary_provider;
    stages = q.stages;
    current_stage = 0;
    current_percentage = first;
    state = running;
    observation_window = q.observation_window;
    error_threshold = q.error_threshold;
    latency_p95_threshold = q.latency_p95_threshold;
    stage_started_at = now;
    created_at = now;
    updated_at = now;
    completed_at = none;
    rollback_reason = "";
  }

  pub no_active : Option (Rollout F) → Result (Unit {0})
  no_active none = ok tt
  no_active (some r) = err (active_exists r.id)

  unfoldable pub create_rollout :
      (ℕ → String)
      → (MemoryStore F → MemoryStore F)
      → ℕ
      → Request F
      → MemoryStore F
      → Result (Rollout F × MemoryStore F)
  unfolding no_active
  create_rollout id_of order now q s = do
    _ ← no_active (get_by_model order q.route_model s)
    first ← first_stage q.stages
    s' ← or_fail (create (new_rollout id_of now first q) s) create_failed
    ok (new_rollout id_of now first q, s')

  unfoldable pub active_rollout :
      (MemoryStore F → MemoryStore F) → String → MemoryStore F → Option (Rollout F)
  active_rollout order model s = elim (get_by_model order model s) [
    | none ↦ none
    | some r ↦ if is_running r.state then some r else none
  ]

  unfoldable pub paused_at : ℕ → Rollout F → Rollout F
  paused_at now r = record r { state = paused; updated_at = now }

  unfoldable pub pause_rollout : ℕ → String → MemoryStore F → Result (MemoryStore F)
  unfolding paused_at
  pause_rollout now id s = do
    r ← or_fail (get id s) get_failed
    _ ← guard (is_running r.state) (cannot_from r.state)
    or_fail (update (paused_at now r) s) update_failed

  unfoldable pub resumed_at : ℕ → Rollout F → Rollout F
  resumed_at now r = record r { state = running; stage_started_at = now; updated_at = now }

  unfoldable pub resume_rollout : ℕ → String → MemoryStore F → Result (MemoryStore F)
  unfolding resumed_at
  resume_rollout now id s = do
    r ← or_fail (get id s) get_failed
    _ ← guard (is_paused r.state) (cannot_from r.state)
    or_fail (update (resumed_at now r) s) update_failed

  unfoldable pub rolled_back_at : ℕ → String → Rollout F → Rollout F
  rolled_back_at now reason r = record r {
    state = rolled_back;
    current_percentage = 0;
    rollback_reason = reason;
    updated_at = now;
    completed_at = some now;
  }

  unfoldable pub rollback_rollout : ℕ → String → MemoryStore F → Result (MemoryStore F)
  unfolding rolled_back_at
  rollback_rollout now id s = do
    r ← or_fail (get id s) get_failed
    _ ← guard (is_running r.state || is_paused r.state) (cannot_from r.state)
    or_fail (update (rolled_back_at now "manual rollback" r) s) update_failed

  -- promote, before the update: the last stage completes, any other moves on by one.
  unfoldable pub promoted_at : ℕ → Rollout F → Rollout F
  promoted_at now r =
      if leb (length r.stages) (r.current_stage + 1)
      then (record r { state = completed; completed_at = some now; updated_at = now })
      else (record r {
        current_stage = r.current_stage + 1;
        current_percentage = get_or r.stages (r.current_stage + 1) 0;
        stage_started_at = now;
        updated_at = now;
      })

  -- `_ = m.store.Update(r)`
  unfoldable pub try_update : Rollout F → MemoryStore F → MemoryStore F
  try_update r s = elim (update r s) [ none ↦ s | some s' ↦ s' ]

-- What the loop finds when it comes to a rollout: the clock readings of `Evaluate`, the entries of
-- the request log, the newest first, and the clock reading of the action.
pub record Moment : Type 0 where
  pub since : ℕ
  pub now : ℕ
  pub acted : ℕ
  pub entries : List RequestEntry

module _ (fl : Float64) (lib : Library fl) where
  unfoldable pub settle : Moment → Rollout fl.F → MemoryStore fl.F → MemoryStore fl.F
  settle m r s =
      if not (is_running r.state)
      then s
      else let e = evaluate fl lib m.since m.now m.entries r in
        elim e.decision [
          | Decision.wait ↦ s
          | Decision.promote ↦ try_update (promoted_at m.acted r) s
          | Decision.rollback ↦ try_update (rolled_back_at m.acted e.reason r) s
        ]

  -- The loop of evaluateAll; rollout number `i` is met at moment `at i`.
  unfoldable pub settle_all :
      (ℕ → Moment) → ℕ → List (Rollout fl.F) → MemoryStore fl.F → MemoryStore fl.F
  settle_all at i [] s = s
  settle_all at i (r ∷ rs) s = settle_all at (i + 1) rs (settle (at i) r s)

  unfoldable pub evaluate_all :
      (MemoryStore fl.F → MemoryStore fl.F)
      → (List (Rollout fl.F) → List (Rollout fl.F))
      → (ℕ → Moment)
      → MemoryStore fl.F
      → MemoryStore fl.F
  unfolding settle_all
  evaluate_all order sort at s = settle_all at 0 (list order sort s) s
