-- ===== src/Admin/Adapters.antt =====
-- internal/rollout/adminadapter.go and internal/analytics/adminadapter.go keep what the admin API asks
-- of them.
use aigateway.Prelude.{◌≡◌, refl, ap, ◌≢◌, ℕ, String, false, List, [], ◌∷◌, arith}
use aigateway.Prelude.Results.{ok}
use aigateway.Prelude.Dict.{Dict}
use aigateway.Float.{Float64}
use aigateway.Analytics.{Sorting}
use aigateway.Analytics.Alerts.{Alert, acknowledge, acknowledge_in}
use aigateway.Analytics.AdminAdapter as AnalyticsAdapter
use aigateway.Rollout.Types.{Rollout}
use aigateway.Rollout.Store.{MemoryStore}
use aigateway.Rollout.Evaluator.{Library}
use aigateway.Rollout.Manager
use aigateway.Rollout.Manager.{
  Error, create_rollout, pause_rollout, resume_rollout, rollback_rollout,
}
use aigateway.Rollout.AdminAdapter.{RolloutView, AdminMoment, changed, created, admin_adapter}
use aigateway.Admin.Atomicity.{IsAtomic, IsAcknowledging}

module _ (fl : Float64) (lib : Library fl) (error_text : Error → String) (id_of : ℕ → String)
    (order : MemoryStore fl.F → MemoryStore fl.F) (sort : List (Rollout fl.F) → List (Rollout fl.F))
    (at : AdminMoment) where
  open fl use {F}

  changed_fails :
      (s : MemoryStore F) (r : Manager.Result (MemoryStore F))
      → (changed fl lib error_text id_of order sort at s r).0 ≢ ok tt
      → (changed fl lib error_text id_of order sort at s r).1 ≡ s
  changed_fails s (Manager.ok s') h = absurd (h refl)
  changed_fails s (Manager.err e) h = refl
  changed_fails s Manager.panics h = refl

  created_fails :
      (s : MemoryStore F) (r : Manager.Result (Rollout F × MemoryStore F))
      → ((j : RolloutView F) → (created fl lib error_text id_of order sort at s r).0 ≢ ok j)
      → (created fl lib error_text id_of order sort at s r).1 ≡ s
  created_fails s (Manager.ok (r, s')) h = absurd (h _ refl)
  created_fails s (Manager.err e) h = refl
  created_fails s Manager.panics h = refl

  pub admin_adapter-IsAtomic : IsAtomic (admin_adapter fl lib error_text id_of order sort at)
  admin_adapter-IsAtomic = record {
    create_fails = λ q s h. created_fails s (create_rollout id_of order at.now q s) h;
    pause_fails = λ id s h. changed_fails s (pause_rollout at.now id s) h;
    resume_fails = λ id s h. changed_fails s (resume_rollout at.now id s) h;
    rollback_fails = λ id s h. changed_fails s (rollback_rollout at.now id s) h;
  }

module _ {F : Type 0} where
  acknowledge_in_fails :
      (id : String) (m : Dict (Alert F))
      → (acknowledge_in id m).0 ≡ false
      → (acknowledge_in id m).1 ≡ m
  unfolding acknowledge_in
  acknowledge_in_fails id [] h = refl
  acknowledge_in_fails id ((key, a) ∷ m) h = ground (arith, acknowledge_in_fails id m)

module _ (fl : Float64) (ceil : fl.F → fl.F) (sort : Sorting) (names : List String → List String)
    (order : Dict (Alert fl.F) → Dict (Alert fl.F)) where
  pub admin_adapter-IsAcknowledging :
      IsAcknowledging (AnalyticsAdapter.admin_adapter fl ceil sort names order)
  unfolding acknowledge
  admin_adapter-IsAcknowledging = record {
    acknowledge_fails = λ id a h.
        ap (λ active. record a { alert_manager = record a.alert_manager { active = active } })
          (acknowledge_in_fails id a.alert_manager.active h);
  }
