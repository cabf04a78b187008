-- ===== src/Rollout/Refinement.antt =====
-- internal/rollout: the manager's operations are changes of the store.
use aigateway.Prelude.{
  ℕ, ◌≡◌, refl, sym, ap, subst, ◌∙◌, inl, inr, String, false, none, some, List, [], ◌∷◌, arith,
  eq_iff, Option-cases,
}
use aigateway.Prelude.Dict.{lookup, insert, IsRange}
use aigateway.Rollout.Types.{is_active_state, Rollout}
use aigateway.Rollout.Store.{MemoryStore, create, get, update, find_active, get_by_model}
use aigateway.Rollout.Manager.{
  ok, Request, new_rollout, create_rollout, paused_at, pause_rollout, resumed_at, resume_rollout,
  rolled_back_at, rollback_rollout,
}
use aigateway.Rollout.Lifecycle.{Move, pauses, resumes, rolls_back, IsSound, Move-keeps}
use aigateway.Rollout.Change.{Change, moves, begins, IsConsistent}

module _ {F : Type 0} where
  -- A search that finds nothing: no rollout of the model is active.
  find_active-none :
      (model : String) (m : MemoryStore F) (k : String) (q : Rollout F)
      → find_active model m ≡ none
      → lookup k m ≡ some q
      → q.route_model ≡ model
      → is_active_state q.state ≡ false
  unfolding find_active lookup
  find_active-none model [] k q h found same = cc
  find_active-none model ((j, r) ∷ m) k q h found same =
      ground (arith, eq_iff r.route_model model, find_active-none model m k q)

  -- An update by a move of what the store holds is a change.
  update-Change :
      (s s' : MemoryStore F) (r q : Rollout F)
      → lookup r.id s ≡ some r
      → Move r q
      → update q s ≡ some s'
      → Change s s'
  unfolding update
  update-Change s s' r q found move e =
      let same = (Move-keeps move).1 in
      moves r q found move (ground (arith, ap (λ k. insert k q s) same, ap (λ k. lookup k s) same))

  -- What a successful lookup gives in a consistent store.
  got :
      (s : MemoryStore F) (id : String) (r : Rollout F)
      → IsConsistent s
      → lookup id s ≡ some r
      → lookup r.id s ≡ some r
  got s id r v found = ap (λ k. lookup k s) (v.keyed id r found) ∙ found

  new_rollout-IsSound :
      (id_of : ℕ → String) (now p : ℕ) (ps : List ℕ) (q : Request F)
      → q.stages ≡ p ∷ ps
      → IsSound (new_rollout id_of now p q)
  new_rollout-IsSound id_of now p ps q e = record {
    in_range = ground arith;
    share = ground arith;
    ended = refl;
  }

  -- A creation that succeeds begins a rollout for a model that had no active one.
  create_rollout_cases :
      (id_of : ℕ → String) (order : MemoryStore F → MemoryStore F) (now : ℕ) (q : Request F)
      (s s' : MemoryStore F) (r : Rollout F) (stages : List ℕ)
      → q.stages ≡ stages
      → create_rollout id_of order now q s ≡ ok (r, s')
      → (find_active q.route_model (order s) ≡ none)
        × IsSound r
        × (r.route_model ≡ q.route_model)
        × (lookup r.id s ≡ none)
        × (s' ≡ insert r.id r s)
  unfolding create_rollout get_by_model create
  create_rollout_cases id_of order now q s s' r [] e h = absurd (ground arith)
  create_rollout_cases id_of order now q s s' r (p ∷ ps) e h =
      let sound = new_rollout-IsSound id_of now p ps q e in
      let same : r ≡ new_rollout id_of now p q = ground arith in
      (ground arith, subst IsSound (sym same) sound, ground arith, ground arith, ground arith)

  pub create_rollout-Change :
      (id_of : ℕ → String) (order : MemoryStore F → MemoryStore F) (now : ℕ) (q : Request F)
      (s s' : MemoryStore F) (r : Rollout F)
      → IsRange order
      → IsConsistent s
      → create_rollout id_of order now q s ≡ ok (r, s')
      → Change s s'
  create_rollout-Change id_of order now q s s' r ranges v h =
      let (idle, sound, same, fresh, e) =
        create_rollout_cases id_of order now q s s' r q.stages refl h in
      begins r fresh
        (λ k x found model.
          find_active-none q.route_model (order s) k x idle (ranges.same s k v.is_map ∙ found)
            (model ∙ same))
        sound e

  pub pause_rollout-Change :
      (now : ℕ) (id : String) (s s' : MemoryStore F)
      → IsConsistent s
      → pause_rollout now id s ≡ ok s'
      → Change s s'
  unfolding pause_rollout get
  pause_rollout-Change now id s s' v h = elim (Option-cases (lookup id s)) [
    | inl e ↦ absurd (ground arith)
    | inr (r, e) ↦
        update-Change s s' r (paused_at now r) (got s id r v e) (pauses now (ground arith))
          (ground arith)
  ]

  pub resume_rollout-Change :
      (now : ℕ) (id : String) (s s' : MemoryStore F)
      → IsConsistent s
      → resume_rollout now id s ≡ ok s'
      → Change s s'
  unfolding resume_rollout get
  resume_rollout-Change now id s s' v h = elim (Option-cases (lookup id s)) [
    | inl e ↦ absurd (ground arith)
    | inr (r, e) ↦
        update-Change s s' r (resumed_at now r) (got s id r v e) (resumes now (ground arith))
          (ground arith)
  ]

  pub rollback_rollout-Change :
      (now : ℕ) (id : String) (s s' : MemoryStore F)
      → IsConsistent s
      → rollback_rollout now id s ≡ ok s'
      → Change s s'
  unfolding rollback_rollout get
  rollback_rollout-Change now id s s' v h = elim (Option-cases (lookup id s)) [
    | inl e ↦ absurd (ground arith)
    | inr (r, e) ↦
        update-Change s s' r (rolled_back_at now "manual rollback" r) (got s id r v e)
          (rolls_back now "manual rollback" (ground arith)) (ground arith)
  ]
