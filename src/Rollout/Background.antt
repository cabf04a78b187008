-- ===== src/Rollout/Background.antt =====
-- internal/rollout/manager.go: one round of the background loop, `evaluateAll`.
use mathlib.Core.List.{Permᴰ}
use aigateway.Prelude.{
  ℕ, zero, suc, ◌+◌, ◌≡◌, ◌≢◌, sym, ap, subst, ◌∙◌, ◌⊎◌, inl, inr, String, true, some, List, [],
  ◌∷◌, arith, eq_iff, Bool-cases, All, map, take,
}
use aigateway.Prelude.Dict.{lookup, insert, IsMap, IsRange, lookup-insert}
use aigateway.Float.{Float64}
use aigateway.Rollout.Types.{Rollout, is_running, running}
use aigateway.Rollout.Store.{MemoryStore, update, list}
use aigateway.Rollout.Evaluator.{Decision, Library, evaluate}
use aigateway.Rollout.Manager.{
  rolled_back_at, promoted_at, try_update, Moment, settle, settle_all, evaluate_all,
}
use aigateway.Rollout.Lifecycle.{Move, rolls_back, promotes, Move-keeps}
use aigateway.Rollout.Change.{moves, Reach, here, next, IsConsistent, Reach-trans}

module _ {F : Type 0} where
  -- What the loop is given: rollouts with different IDs, each as the store holds it.
  abbrev Held : MemoryStore F → List (Rollout F) → Type 0
  Held s rs = All (λ r. lookup r.id s ≡ some r) rs

  abbrev Distinct : List (Rollout F) → Type 0
  Distinct [] = Unit {0}
  Distinct (r ∷ rs) = All (λ (q : Rollout F). r.id ≢ q.id) rs × Distinct rs

  -- Whatever holds of each entry of a map holds of each of its values.
  All-values :
      (Q : Rollout F → Type 0) (m : MemoryStore F)
      → IsMap m
      → ((k : String) (r : Rollout F) → lookup k m ≡ some r → Q r)
      → All Q (map (λ e. e.1) m)
  unfolding lookup
  All-values Q [] h f = tt
  All-values Q ((k, r) ∷ m) h f = (
    f k r (ground (arith, eq_iff k k)),
    All-values Q m h.1 λ j q found. f j q (ground (arith, eq_iff k j)),
  )

  Distinct-values :
      (m : MemoryStore F)
      → IsMap m
      → ((k : String) (r : Rollout F) → lookup k m ≡ some r → r.id ≡ k)
      → Distinct (map (λ e. e.1) m)
  unfolding lookup
  Distinct-values [] h keyed = tt
  Distinct-values ((k, r) ∷ m) h keyed =
      let head : r.id ≡ k = keyed k r (ground (arith, eq_iff k k)) in
      let rest : (j : String) (q : Rollout F) → lookup j m ≡ some q → q.id ≡ j =
        λ j q found. keyed j q (ground (arith, eq_iff k j)) in
      (
        All-values (λ (q : Rollout F). r.id ≢ q.id) m h.1
            (λ j q found same. ground (arith, rest j q found)),
        Distinct-values m h.1 rest,
      )

  -- Both survive a permutation and a cut.
  All-perm : (Q : Rollout F → Type 0) {xs ys : List (Rollout F)} → Permᴰ xs ys → All Q xs → All Q ys
  All-perm Q Permᴰ.nil h = tt
  All-perm Q (Permᴰ.cons e p) h = (subst Q e h.0, All-perm Q p h.1)
  All-perm Q (Permᴰ.swap e e') h = (subst Q e' h.1.0, (subst Q e h.0, h.1.1))
  All-perm Q (Permᴰ.trans p q) h = All-perm Q q (All-perm Q p h)

  -- The ID of a rollout is none of those of a list.
  abbrev New : List (Rollout F) → Rollout F → Type 0
  New rs r = All (λ (q : Rollout F). r.id ≢ q.id) rs

  Distinct-perm : {xs ys : List (Rollout F)} → Permᴰ xs ys → Distinct xs → Distinct ys
  Distinct-perm Permᴰ.nil h = tt
  Distinct-perm (Permᴰ.cons {a = a} {l₂ = l} e p) h =
      (subst (New l) e (All-perm (λ q. a.id ≢ q.id) p h.0), Distinct-perm p h.1)
  Distinct-perm (Permᴰ.swap {l = l} e e') h = (
    (
      λ same.
          h.0.0
            (ap (λ (z : Rollout F). z.id) e ∙ (sym same ∙ sym (ap (λ (z : Rollout F). z.id) e'))),
      subst (New l) e' h.1.0,
    ),
    (subst (New l) e h.0.1, h.1.1),
  )
  Distinct-perm (Permᴰ.trans p q) h = Distinct-perm q (Distinct-perm p h)

  All-take : (Q : Rollout F → Type 0) (n : ℕ) (xs : List (Rollout F)) → All Q xs → All Q (take n xs)
  All-take Q zero xs h = tt
  All-take Q (suc n) [] h = tt
  All-take Q (suc n) (x ∷ xs) h = (h.0, All-take Q n xs h.1)

  Distinct-take : (n : ℕ) (xs : List (Rollout F)) → Distinct xs → Distinct (take n xs)
  Distinct-take zero xs h = tt
  Distinct-take (suc n) [] h = tt
  Distinct-take (suc n) (x ∷ xs) h = (All-take _ n xs h.0, Distinct-take n xs h.1)

  module _ (order : MemoryStore F → MemoryStore F) (ranges : IsRange order)
      (sort : List (Rollout F) → List (Rollout F))
      (permutes : (xs : List (Rollout F)) → Permᴰ xs (sort xs)) (s : MemoryStore F)
      (v : IsConsistent s) where
    list-Held : Held s (list order sort s)
    unfolding list
    list-Held = All-take _ 50 _ (
        All-perm _ (permutes _) (
          All-values _ (order s) (ranges.once s v.is_map) λ k r found.
            let here_too = sym (ranges.same s k v.is_map) ∙ found in
            ap (λ j. lookup j s) (v.keyed k r here_too) ∙ here_too))

    list-Distinct : Distinct (list order sort s)
    unfolding list
    list-Distinct = Distinct-take 50 _ (
        Distinct-perm (permutes _) (
          Distinct-values (order s) (ranges.once s v.is_map)
            λ k r found. v.keyed k r (sym (ranges.same s k v.is_map) ∙ found)))

  -- An update by a move of what the store holds goes through.
  try_update-Move :
      (r q : Rollout F) (s : MemoryStore F)
      → lookup r.id s ≡ some r
      → Move r q
      → try_update q s ≡ insert r.id q s
  unfolding try_update update
  try_update-Move r q s found move =
      let same = (Move-keeps move).1 in
      ground (arith, ap (λ k. insert k q s) same, ap (λ k. lookup k s) same)

  is_running-eq : (r : Rollout F) → is_running r.state ≡ true → r.state ≡ running
  is_running-eq r h = ground arith

Decision-cases :
    (d : Decision) → (d ≡ Decision.wait) ⊎ (d ≡ Decision.promote) ⊎ (d ≡ Decision.rollback)
Decision-cases d = ground arith

module _ (fl : Float64) (lib : Library fl) where
  -- What `settle` does to a rollout that the store holds: nothing, or a move.
  settle_cases :
      (m : Moment) (r : Rollout fl.F) (s : MemoryStore fl.F)
      → lookup r.id s ≡ some r
      → (settle fl lib m r s ≡ s)
        ⊎ ((q : Rollout fl.F) × Move r q × (settle fl lib m r s ≡ insert r.id q s))
  unfolding settle
  settle_cases m r s found = elim (Bool-cases (is_running r.state)) [
    | inr off ↦ inl (rw off)
    | inl on ↦
        let back = rolled_back_at m.acted (evaluate fl lib m.since m.now m.entries r).reason r in
        let forth = promoted_at m.acted r in
        let live = is_running-eq r on in
        elim (Decision-cases (evaluate fl lib m.since m.now m.entries r).decision) [
          | inl e ↦ inl (ground arith)
          | inr (inl e) ↦
              let move : Move r forth = promotes m.acted live in
              inr (forth, move, ground (arith, try_update-Move r forth s found move))
          | inr (inr e) ↦
              let move : Move r back = rolls_back m.acted _ (inl live) in
              inr (back, move, ground (arith, try_update-Move r back s found move))
        ]
  ]

  -- What the loop has yet to meet is still as it was given.
  settle-Held :
      (m : Moment) (r : Rollout fl.F) (rs : List (Rollout fl.F)) (s : MemoryStore fl.F)
      → lookup r.id s ≡ some r
      → New rs r
      → Held s rs
      → Held (settle fl lib m r s) rs
  settle-Held m r [] s found new held = tt
  settle-Held m r (x ∷ rs) s found new held = (
    elim (settle_cases m r s found) [
      | inl e ↦ rw e held.0
      | inr (q, _, e) ↦ rw (e, lookup-insert) (ground (arith, eq_iff r.id x.id, held.0, new.0))
    ],
    settle-Held m r rs s found new.1 held.1,
  )

  settle-Reach :
      (m : Moment) (r : Rollout fl.F) (s : MemoryStore fl.F)
      → lookup r.id s ≡ some r
      → Reach s (settle fl lib m r s)
  settle-Reach m r s found = elim (settle_cases m r s found) [
    | inl e ↦ rw e here
    | inr (q, move, e) ↦ next here (moves r q found move e)
  ]

  settle_all-Reach :
      (at : ℕ → Moment) (i : ℕ) (rs : List (Rollout fl.F)) (s : MemoryStore fl.F)
      → Held s rs
      → Distinct rs
      → Reach s (settle_all fl lib at i rs s)
  unfolding settle_all
  settle_all-Reach at i [] s held distinct = here
  settle_all-Reach at i (r ∷ rs) s held distinct = Reach-trans (settle-Reach (at i) r s held.0) (
      settle_all-Reach at (i + 1) rs (settle fl lib (at i) r s)
        (settle-Held (at i) r rs s held.0 distinct.0 held.1) distinct.1)

  -- A round of the background loop is a history of changes, where nothing else writes to the
  -- store meanwhile and the store is consistent, whatever the clock, the request log, the order
  -- of the ranges and the sort.
  pub evaluate_all-Reach :
      (order : MemoryStore fl.F → MemoryStore fl.F)
      (sort : List (Rollout fl.F) → List (Rollout fl.F)) (at : ℕ → Moment) (s : MemoryStore fl.F)
      → IsRange order
      → ((xs : List (Rollout fl.F)) → Permᴰ xs (sort xs))
      → IsConsistent s
      → Reach s (evaluate_all fl lib order sort at s)
  unfolding evaluate_all
  evaluate_all-Reach order sort at s ranges permutes v =
      settle_all-Reach at 0 (list order sort s) s (list-Held order ranges sort permutes s v)
        (list-Distinct order ranges sort permutes s v)
