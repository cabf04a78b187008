-- ===== src/Rollout/Progress.antt =====
-- internal/rollout/manager.go: promotions take a rollout through its stages to completion.
use aigateway.Prelude.{
  ℕ, ◌+◌, ◌≤◌, ◌<◌, ◌≡◌, ◌⊎◌, inl, inr, refl, subst, ap, ◌∙◌, ltb, Bool-cases, List, [], ◌∷◌, some,
  arith, length, get_or,
}
use aigateway.Rollout.Types.{running, completed, Rollout}
use aigateway.Rollout.Manager.{promoted_at}

module _ {F : Type 0} where
  -- Promotions one after the other, at the given times.
  pub promotions : List ℕ → Rollout F → Rollout F
  promotions [] r = r
  promotions (now ∷ times) r = promotions times (promoted_at now r)

  pub stays :
      (now : ℕ) (r : Rollout F)
      → r.state ≡ running
      → r.current_stage + 1 < length r.stages
      → ((promoted_at now r).state ≡ running)
        × ((promoted_at now r).stages ≡ r.stages)
        × ((promoted_at now r).current_stage ≡ r.current_stage + 1)
        × ((promoted_at now r).current_percentage ≡ get_or r.stages (r.current_stage + 1) 0)
  unfolding promoted_at
  stays now r live more = ground arith

  abbrev pub Ended : ℕ → Rollout F → Type 0
  Ended now r = (r.state ≡ completed) × (r.completed_at ≡ some now)

  ends :
      (now : ℕ) (r : Rollout F)
      → length r.stages ≤ r.current_stage + 1
      → Ended now (promoted_at now r)
  unfolding promoted_at
  ends now r last = ground arith

  -- A rollout that runs at its stage `i` of `stages`, with that stage's share.
  abbrev pub IsAt : List ℕ → ℕ → Rollout F → Type 0
  IsAt stages i r =
      (r.state ≡ running)
      × (r.stages ≡ stages)
      × (r.current_stage ≡ i)
      × (r.current_percentage ≡ get_or stages i 0)

  advances :
      (now i : ℕ) (stages : List ℕ) (r : Rollout F)
      → IsAt stages i r
      → i + 1 < length stages
      → IsAt stages (i + 1) (promoted_at now r)
  advances now i stages r (live, same, stage, share) more =
      let long = ap (λ (xs : List ℕ). length xs) same in
      let (live', same', stage', share') = stays now r live (ground (arith, long, stage, more)) in
      (
        live',
        same' ∙ same,
        ground (arith, stage', stage),
        share'
            ∙ (ap (λ j. get_or r.stages (j + 1) 0) stage
                ∙ ap (λ (xs : List ℕ). get_or xs (i + 1) 0) same),
      )

  runs_on :
      (times : List ℕ) (i : ℕ) (stages : List ℕ) (r : Rollout F)
      → IsAt stages i r
      → i + length times < length stages
      → IsAt stages (i + length times) (promotions times r)
  unfolding promotions
  runs_on [] i stages r here more = subst (λ j. IsAt stages j r) (omega arith) here
  runs_on (now ∷ times) i stages r here more =
      subst (λ j. IsAt stages j (promotions times (promoted_at now r))) (omega arith)
        (runs_on times (i + 1) stages (promoted_at now r)
          (advances now i stages r here (omega arith)) (omega arith))

  -- One more promotion completes it or leaves it running.
  completes_or_runs :
      (now i : ℕ) (stages : List ℕ) (r : Rollout F)
      → IsAt stages i r
      → i < length stages
      → ((i + 1 ≡ length stages) × Ended now (promoted_at now r))
        ⊎ ((i + 1 < length stages) × ((promoted_at now r).state ≡ running))
  completes_or_runs now i stages r here more = elim (Bool-cases (ltb (i + 1) (length stages))) [
    | inl more' ↦
        let further : i + 1 < length stages = ground (arith, more') in
        inr (further, (advances now i stages r here further).0)
    | inr no_more ↦
        let is_last : i + 1 ≡ length stages = ground (arith, no_more, more) in
        let long = ap (λ (xs : List ℕ). length xs) here.1 in
        inl (is_last, ends now r (ground (arith, long, here.2, is_last)))
  ]

  -- A rollout that runs at a stage with its share, and has at least as many stages left after it as
  -- promotions follow, runs after them as many stages further, with the share of the stage that it has
  -- reached. The next promotion then completes it, at its time, if that stage is the last, and otherwise
  -- leaves it running. As it holds for each number of promotions, each one moves the rollout by one
  -- stage, to its share, and only the one from the last stage completes it.
  pub promotions_complete :
      (times : List ℕ) (next : ℕ) (r : Rollout F)
      → r.state ≡ running
      → r.current_percentage ≡ get_or r.stages r.current_stage 0
      → r.current_stage + length times < length r.stages
      → let r' = promotions times r in
        (r'.state ≡ running)
        × (r'.stages ≡ r.stages)
        × (r'.current_stage ≡ r.current_stage + length times)
        × (r'.current_percentage ≡ get_or r.stages (r.current_stage + length times) 0)
        × (((r.current_stage + length times + 1 ≡ length r.stages)
              × Ended next (promoted_at next r'))
            ⊎ ((r.current_stage + length times + 1 < length r.stages)
                × ((promoted_at next r').state ≡ running)))
  promotions_complete times next r live share more =
      let i = r.current_stage + length times in
      let r' = promotions times r in
      let (on, same, stage, at_share) =
        runs_on times r.current_stage r.stages r (live, refl, refl, share) more in
      (
        on,
        same,
        stage,
        at_share,
        completes_or_runs next i r.stages r' (on, same, stage, at_share) more,
      )
