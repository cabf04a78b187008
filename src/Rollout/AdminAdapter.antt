-- ===== src/Rollout/AdminAdapter.antt =====
-- internal/rollout/adminadapter.go: the rollout manager as the admin API uses it, over the memory
-- store. The readings of the clock, the entries of the request log and the texts of the errors are
-- arguments.
use aigateway.Prelude.{ℕ, String, some, List}
use aigateway.Prelude.Results.{Result, ok, err, panics}
use aigateway.Float.{Float64}
use aigateway.RequestLog.{RequestEntry}
use aigateway.Rollout.Types.{Rollout, RolloutMetrics}
use aigateway.Rollout.Store.{MemoryStore, get, list}
use aigateway.Rollout.Evaluator.{Library, evaluate}
use aigateway.Rollout.Manager
use aigateway.Rollout.Manager.{
  Error, get_failed, Request, or_fail, create_rollout, pause_rollout, resume_rollout,
  rollback_rollout,
}
use aigateway.Admin.{RolloutManager}

-- What is shown of rollouts.
pub data RolloutView (F : Type 0) : Type 0 where
  listed : List (Rollout F) → RolloutView F
  single : Rollout F → RolloutView F
  measured : Rollout F → RolloutMetrics F → RolloutView F

-- The moment of a request: `now` for a change, and `since` and `judged` for the two readings of
-- `Evaluate`.
pub record AdminMoment : Type 0 where
  pub now : ℕ
  pub since : ℕ
  pub judged : ℕ
  pub entries : List RequestEntry

module _ (fl : Float64) (lib : Library fl) (error_text : Error → String) (id_of : ℕ → String)
    (order : MemoryStore fl.F → MemoryStore fl.F) (sort : List (Rollout fl.F) → List (Rollout fl.F))
    (at : AdminMoment) where
  open fl use {F}

  -- An error of the manager, as its text.
  abbrev pub texted : {A : Type 0} → Manager.Result A → Result A
  texted (Manager.ok a) = ok a
  texted (Manager.err e) = err (error_text e)
  texted Manager.panics = panics

  -- A change of the store, which stays as it was with an error.
  abbrev pub changed :
      MemoryStore F → Manager.Result (MemoryStore F) → Result (Unit {0}) × MemoryStore F
  changed s (Manager.ok s') = (ok tt, s')
  changed s (Manager.err e) = (err (error_text e), s)
  changed s Manager.panics = (panics, s)

  abbrev pub created :
      MemoryStore F
      → Manager.Result (Rollout F × MemoryStore F)
      → Result (RolloutView F) × MemoryStore F
  created s (Manager.ok (r, s')) = (ok (single r), s')
  created s (Manager.err e) = (err (error_text e), s)
  created s Manager.panics = (panics, s)

  -- GetMetrics of the manager
  unfoldable pub get_metrics : Rollout F → RolloutMetrics F
  get_metrics r = (evaluate fl lib at.since at.judged at.entries r).metrics

  abbrev with_metrics : Manager.Result (Rollout F) → Manager.Result (RolloutView F)
  with_metrics (Manager.ok r) = Manager.ok (measured r (get_metrics r))
  with_metrics (Manager.err e) = Manager.err e
  with_metrics Manager.panics = Manager.panics

  unfoldable pub get_rollout_with_metrics : String → MemoryStore F → Result (RolloutView F)
  unfolding get_metrics
  get_rollout_with_metrics id s = texted (with_metrics (or_fail (get id s) get_failed))

  abbrev pub admin_adapter : RolloutManager F (RolloutView F)
  admin_adapter = record {
    S = MemoryStore F;
    list_rollouts = λ s. ok (some (listed (list order sort s)));
    create_rollout = λ q s. created s (create_rollout id_of order at.now q s);
    get_rollout_with_metrics = get_rollout_with_metrics;
    pause_rollout = λ id s. changed s (pause_rollout at.now id s);
    resume_rollout = λ id s. changed s (resume_rollout at.now id s);
    rollback_rollout = λ id s. changed s (rollback_rollout at.now id s);
  }
