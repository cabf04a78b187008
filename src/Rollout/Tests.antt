-- ===== src/Rollout/Tests.antt =====
-- Runs of the rollouts of internal/rollout, and the theorems at them. Floats are whole numbers here,
-- and a division by nought is nought.
use mathlib.Core.List.Permᴰ
use aigateway.Prelude.{
  ℕ, zero, suc, ◌+◌, ◌*◌, ◌≤◌, ◌<◌, ◌≡◌, ◌⊎◌, ◌↔◌, ◌||◌, refl, String, true, false, some, List, [],
  ◌∷◌, arith, All, length, get_or, ltb, replicate,
}
use aigateway.Prelude.Dict.{lookup, insert, IsRange}
use aigateway.Float.Whole.{whole, quotient}
use aigateway.RequestLog.{RequestEntry, zero_entry}
use aigateway.Rollout.Types.{running, Rollout}
use aigateway.Rollout.Store.{MemoryStore, create, get, update, find_active, get_by_model}
use aigateway.Rollout.Evaluator.{Decision, Library, evaluate}
use aigateway.Rollout.Manager.{
  Request, new_rollout, create_rollout, rollback_rollout, rolled_back_at, promoted_at, Moment,
  settle,
}
use aigateway.Rollout.Change.{Reach, IsConsistent}
use aigateway.Rollout.Sessions.{
  Action, creates, rolls_back, rounds, IsLawful, run, run-Reach, one_active_rollout,
  empty-IsConsistent,
}
use aigateway.Rollout.Progress.{promotions, Ended, promotions_complete}
use aigateway.Rollout.Race.{rollback_lost}
use aigateway.Rollout.Health.{canary_requests, canary_health, evaluate_exact}

abbrev lib : Library whole
lib = record {
  sort_ints = λ xs. xs;
  error_rate_text = λ rate limit. "error rate";
  latency_text = λ p95 limit. "p95";
}

abbrev id_of : ℕ → String
id_of now = "rollout"

abbrev request : Request ℕ
request = record {
  route_model = "gpt-4o";
  baseline_providers = "openai" ∷ [];
  canary_provider = "azure";
  stages = 10 ∷ 50 ∷ 100 ∷ [];
  observation_window = 60;
  error_threshold = 5;
  latency_p95_threshold = 300;
}

abbrev begun : Rollout ℕ
begun = new_rollout id_of 100 10 request

abbrev store : MemoryStore ℕ
store = ("rollout", begun) ∷ []

abbrev as_stored : MemoryStore ℕ → MemoryStore ℕ
as_stored s = s

as_stored-IsRange : IsRange as_stored
as_stored-IsRange = record { once = λ m h. h; same = λ m k h. refl }

abbrev fine : RequestEntry
fine = record zero_entry {
  timestamp = 150;
  model = "gpt-4o";
  provider = "azure";
  status = 200;
  latency_ms = 20;
}

abbrev moment : Moment
moment = record { since = 160; now = 160; acted = 161; entries = replicate 10 fine }

abbrev creation : Action ℕ
creation = creates as_stored 100 request

abbrev acts : List (Action ℕ)
acts = creation ∷ rounds as_stored (λ rs. rs) (λ i. moment) ∷ []

run_acts : run whole lib id_of (creation ∷ []) [] ≡ store
unfolding run create_rollout create lookup insert get_by_model find_active
run_acts = refl

store-IsConsistent : IsConsistent store
unfolding run create_rollout create lookup insert get_by_model find_active
store-IsConsistent =
    (run-Reach whole lib id_of (creation ∷ []) [] (as_stored-IsRange, tt) empty-IsConsistent).1

acts-IsLawful : All IsLawful acts
acts-IsLawful = (as_stored-IsRange, ((as_stored-IsRange, λ rs. Permᴰ.refl rs), tt))

run-Reach_example :
    Reach [] (run whole lib id_of acts []) × IsConsistent (run whole lib id_of acts [])
run-Reach_example = run-Reach whole lib id_of acts [] acts-IsLawful empty-IsConsistent

one_active_rollout_example : ◌≡◌ {A = String} "rollout" "rollout" × (begun ≡ begun)
unfolding run create_rollout create lookup insert get_by_model find_active
one_active_rollout_example =
    one_active_rollout whole lib id_of (creation ∷ []) "rollout" "rollout" begun begun
      (as_stored-IsRange, tt) refl refl refl refl refl

abbrev cancelled : List (Action ℕ)
cancelled = creation ∷ rolls_back 120 "rollout" ∷ []

-- Two promotions take it to the last of its three stages.
promotions_complete_example :
    let r' = promotions (200 ∷ 300 ∷ []) begun in
    (r'.state ≡ running)
    × (r'.stages ≡ begun.stages)
    × (r'.current_stage ≡ 2)
    × (r'.current_percentage ≡ get_or begun.stages 2 0)
    × (((3 ≡ length begun.stages) × Ended 400 (promoted_at 400 r'))
        ⊎ ((3 < length begun.stages) × ((promoted_at 400 r').state ≡ running)))
promotions_complete_example = promotions_complete (200 ∷ 300 ∷ []) 400 begun refl refl (omega arith)

rollback_lost_example :
    let s = insert "rollout" (rolled_back_at 155 "manual rollback" begun) store in
    (lookup "rollout" s ≡ some (rolled_back_at 155 "manual rollback" begun))
    × (lookup "rollout" (settle whole lib moment begun s) ≡ some (promoted_at 161 begun))
    × ((promoted_at 161 begun).state ≡ running)
    × ((promoted_at 161 begun).current_percentage ≡ get_or begun.stages 1 0)
unfolding rollback_rollout evaluate update get lookup insert
rollback_lost_example =
    rollback_lost whole lib 155 moment begun store _ refl refl refl refl (omega arith)

evaluate_exact_example :
    let e = evaluate whole lib 160 160 moment.entries begun in
    let due =
      (begun.state ≡ running)
      × (100 + 60 ≤ 160)
      × (10 ≤ length (canary_requests whole lib 160 moment.entries begun)) in
    let health = canary_health whole lib 160 moment.entries begun in
    let bad = ltb 5 health.error_rate || ltb 300 health.p95_latency_ms in
    ((e.decision ≡ Decision.promote) ↔ (due × (bad ≡ false)))
    × ((e.decision ≡ Decision.rollback) ↔ (due × (bad ≡ true)))
evaluate_exact_example = evaluate_exact whole lib 160 160 moment.entries begun

zero_rate : (n : ℕ) → 0 < n → ltb 5 (quotient 0 n * 100) ≡ false
zero_rate zero h = refl
zero_rate (suc d) h = ground arith
