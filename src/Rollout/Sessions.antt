-- ===== src/Rollout/Sessions.antt =====
-- internal/rollout/manager.go: histories of calls of the manager and rounds of its background
-- loop, one after the other.
use mathlib.Core.List.{Permᴰ}
use aigateway.Prelude.{ℕ, ◌≡◌, refl, ap, String, true, some, List, [], ◌∷◌, arith, All}
use aigateway.Prelude.Dict.{lookup, IsRange}
use aigateway.Float.{Float64}
use aigateway.Rollout.Types.{Rollout, is_active_state}
use aigateway.Rollout.Store.{MemoryStore}
use aigateway.Rollout.Evaluator.{Library}
use aigateway.Rollout.Manager.{
  Result, ok, err, panics, Request, create_rollout, pause_rollout, resume_rollout, rollback_rollout,
  Moment, evaluate_all,
}
use aigateway.Rollout.Lifecycle.{IsOver}
use aigateway.Rollout.Change.{
  Change, Reach, here, next, IsConsistent, Reach-IsConsistent, Reach-trans, Reach-over,
}
use aigateway.Rollout.Refinement.{
  create_rollout-Change, pause_rollout-Change, resume_rollout-Change, rollback_rollout-Change,
}
use aigateway.Rollout.Background.{evaluate_all-Reach}

-- A call of the manager, or a round of the background loop, with what it meets.
pub data Action (F : Type 0) : Type 0 where
  creates : (MemoryStore F → MemoryStore F) → ℕ → Request F → Action F
  pauses resumes rolls_back : ℕ → String → Action F
  rounds :
      (MemoryStore F → MemoryStore F)
      → (List (Rollout F) → List (Rollout F))
      → (ℕ → Moment)
      → Action F

-- The ranges visit each entry once, and the sort permutes.
abbrev pub IsLawful : {F : Type 0} → Action F → Type 0
IsLawful {F = F} (creates order now q) = IsRange order
IsLawful {F = F} (rounds order sort at) =
    IsRange order × ((xs : List (Rollout F)) → Permᴰ xs (sort xs))
IsLawful {F = F} _ = Unit {0}

-- A call that fails leaves the store as it was.
abbrev pub stored : {F : Type 0} → MemoryStore F → Result (MemoryStore F) → MemoryStore F
stored s (ok t) = t
stored s _ = s

abbrev pub made : {F : Type 0} → MemoryStore F → Result (Rollout F × MemoryStore F) → MemoryStore F
made s (ok (r, t)) = t
made s _ = s

stored-Reach :
    {F : Type 0} (s : MemoryStore F) (m : Result (MemoryStore F))
    → ((t : MemoryStore F) → m ≡ ok t → Change s t)
    → Reach s (stored s m)
stored-Reach s (ok t) h = next here (h t refl)
stored-Reach s (err e) h = here
stored-Reach s panics h = here

made-Reach :
    {F : Type 0} (s : MemoryStore F) (m : Result (Rollout F × MemoryStore F))
    → ((r : Rollout F) (t : MemoryStore F) → m ≡ ok (r, t) → Change s t)
    → Reach s (made s m)
made-Reach s (ok (r, t)) h = next here (h r t refl)
made-Reach s (err e) h = here
made-Reach s panics h = here

pub empty-IsConsistent : {F : Type 0} → IsConsistent {F = F} []
unfolding lookup
empty-IsConsistent = record {
  is_map = tt;
  keyed = λ k r h. cc;
  sound = λ k r h. absurd (cc);
  one_active = λ k j r q h. absurd (cc);
}

module _ (fl : Float64) (lib : Library fl) (id_of : ℕ → String) where
  open fl use {F}

  pub perform : Action F → MemoryStore F → MemoryStore F
  perform (creates order now q) s = made s (create_rollout id_of order now q s)
  perform (pauses now id) s = stored s (pause_rollout now id s)
  perform (resumes now id) s = stored s (resume_rollout now id s)
  perform (rolls_back now id) s = stored s (rollback_rollout now id s)
  perform (rounds order sort at) s = evaluate_all fl lib order sort at s

  unfoldable pub run : List (Action F) → MemoryStore F → MemoryStore F
  unfolding perform
  run [] s = s
  run (a ∷ acts) s = run acts (perform a s)

  perform-Reach :
      (a : Action F) (s : MemoryStore F) → IsLawful a → IsConsistent s → Reach s (perform a s)
  unfolding perform
  perform-Reach (creates order now q) s h v =
      made-Reach s _ λ r t e. create_rollout-Change id_of order now q s t r h v e
  perform-Reach (pauses now id) s h v = stored-Reach s _ λ t e. pause_rollout-Change now id s t v e
  perform-Reach (resumes now id) s h v =
      stored-Reach s _ λ t e. resume_rollout-Change now id s t v e
  perform-Reach (rolls_back now id) s h v =
      stored-Reach s _ λ t e. rollback_rollout-Change now id s t v e
  perform-Reach (rounds order sort at) s h v = evaluate_all-Reach fl lib order sort at s h.0 h.1 v

  -- From a consistent store every history of calls and rounds, failing or not, is a history of
  -- changes: moves of single
  -- rollouts, and beginnings for models with no active rollout. It keeps the store consistent,
  -- where ranges visit each entry once and the sort permutes.
  pub run-Reach :
      (acts : List (Action F)) (s : MemoryStore F)
      → All IsLawful acts
      → IsConsistent s
      → Reach s (run acts s) × IsConsistent (run acts s)
  unfolding run
  run-Reach [] s h v = (here, v)
  run-Reach (a ∷ acts) s h v =
      let first = perform-Reach a s h.0 v in
      let rest = run-Reach acts (perform a s) h.1 (Reach-IsConsistent v first) in
      (Reach-trans first rest.0, rest.1)

  -- From the empty store, whatever is called, where ranges visit each entry once and the sort
  -- permutes: two active rollouts for one model are one rollout.
  pub one_active_rollout :
      (acts : List (Action F)) (k j : String) (r q : Rollout F)
      → All IsLawful acts
      → lookup k (run acts []) ≡ some r
      → lookup j (run acts []) ≡ some q
      → r.route_model ≡ q.route_model
      → is_active_state r.state ≡ true
      → is_active_state q.state ≡ true
      → (k ≡ j) × (r ≡ q)
  one_active_rollout acts k j r q lawful found found' same act act' =
      let v = (run-Reach acts [] lawful empty-IsConsistent).1 in
      let key : k ≡ j = v.one_active k j r q found found' same act act' in
      (key, ground (arith, ap (λ i. lookup i (run acts [])) key))

  -- A rollout that is completed or rolled back stays as it is, whatever is called afterwards, one
  -- call after the other, where ranges visit each entry once and the sort permutes.
  pub ended_is_final :
      (before after : List (Action F)) (k : String) (r : Rollout F)
      → All IsLawful before
      → All IsLawful after
      → lookup k (run before []) ≡ some r
      → IsOver r
      → lookup k (run after (run before [])) ≡ some r
  ended_is_final before after k r lawful lawful' found over =
      let v = (run-Reach before [] lawful empty-IsConsistent).1 in
      Reach-over k r v (run-Reach after (run before []) lawful' v).0 found over
