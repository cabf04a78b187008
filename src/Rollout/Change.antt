-- ===== src/Rollout/Change.antt =====
-- internal/rollout: what the manager may do to the store, as a step relation, and the invariant
-- that every step keeps.
use aigateway.Prelude.{
  ◌≡◌, ◌≢◌, refl, sym, ap, subst, ◌∙◌, ◌⊎◌, inl, inr, String, true, false, none, some, arith,
  str_eq, eq_iff, Bool-cases,
}
use aigateway.Prelude.Dict.{lookup, insert, IsMap, lookup-insert, insert-IsMap}
use aigateway.Rollout.Types.{is_active_state, Rollout}
use aigateway.Rollout.Store.{MemoryStore}
use aigateway.Rollout.Lifecycle.{Move, IsSound, IsOver, Move-IsSound, Move-keeps}

module _ {F : Type 0} where
  -- One rollout makes a move, or a rollout begins for a model that has no active one.
  pub data Change (s t : MemoryStore F) : Type 0 where
    moves : (r q : Rollout F) → lookup r.id s ≡ some r → Move r q → t ≡ insert r.id q s → Change s t
    begins :
        (r : Rollout F)
        → lookup r.id s ≡ none
        → ((k : String) (q : Rollout F)
            → lookup k s ≡ some q
            → q.route_model ≡ r.route_model
            → is_active_state q.state ≡ false)
        → IsSound r
        → t ≡ insert r.id r s
        → Change s t

  pub data Reach (s : MemoryStore F) : MemoryStore F → Type 0 where
    here : Reach s s
    next : {t u : MemoryStore F} → Reach s t → Change t u → Reach s u

  -- The store is keyed by ID, its rollouts are sound, and no model has two active ones.
  pub record IsConsistent (s : MemoryStore F) : Type 0 where
    pub is_map : IsMap s
    pub keyed : (k : String) (r : Rollout F) → lookup k s ≡ some r → r.id ≡ k
    pub sound : (k : String) (r : Rollout F) → lookup k s ≡ some r → IsSound r
    pub one_active :
        (k j : String) (r q : Rollout F)
        → lookup k s ≡ some r
        → lookup j s ≡ some q
        → r.route_model ≡ q.route_model
        → is_active_state r.state ≡ true
        → is_active_state q.state ≡ true
        → k ≡ j

  -- What a key holds after a write: the new rollout or what it held.
  lookup-insert_cases :
      (k j : String) (q : Rollout F) (s : MemoryStore F) (x : Rollout F)
      → lookup j (insert k q s) ≡ some x
      → ((k ≡ j) × (x ≡ q)) ⊎ ((k ≢ j) × (lookup j s ≡ some x))
  lookup-insert_cases k j q s x h = elim (Bool-cases (str_eq k j)) [
    | inl same ↦ inl ((eq_iff k j).0 same, ground (arith, lookup-insert k j q s))
    | inr other ↦ inr (λ e. ground (arith, eq_iff k j), ground (arith, lookup-insert k j q s))
  ]

  -- A write under a key of a sound rollout for the same key keeps the store consistent, if an
  -- active rollout is written only where no other key has one for its model.
  write-IsConsistent :
      (k : String) (q : Rollout F) (s : MemoryStore F)
      → IsConsistent s
      → q.id ≡ k
      → IsSound q
      → (is_active_state q.state ≡ true
          → (j : String) (x : Rollout F) → k ≢ j
          → lookup j s ≡ some x
          → x.route_model ≡ q.route_model
          → is_active_state x.state ≡ false)
      → IsConsistent (insert k q s)
  write-IsConsistent k q s v named good alone = record {
    is_map = insert-IsMap k q s v.is_map;
    keyed = λ j x found. elim (lookup-insert_cases k j q s x found) [
      | inl (e, new) ↦ ap (λ (y : Rollout F). y.id) new ∙ (named ∙ e)
      | inr (_, old) ↦ v.keyed j x old
    ];
    sound = λ j x found. elim (lookup-insert_cases k j q s x found) [
      | inl (_, new) ↦ subst IsSound (sym new) good
      | inr (_, old) ↦ v.sound j x old
    ];
    one_active = λ j i x y found found' same act act'. elim (lookup-insert_cases k j q s x found) [
      | inl (e, new) ↦ elim (lookup-insert_cases k i q s y found') [
        | inl (e', new') ↦ sym e ∙ e'
        | inr (away, old) ↦ cc (
            alone (ap (λ (z : Rollout F). is_active_state z.state) (sym new) ∙ act) i y away old
              (sym same ∙ ap (λ (z : Rollout F). z.route_model) new))
      ]
      | inr (away, old) ↦ elim (lookup-insert_cases k i q s y found') [
        | inl (e', new') ↦ cc (
            alone (ap (λ (z : Rollout F). is_active_state z.state) (sym new') ∙ act') j x away old
              (same ∙ ap (λ (z : Rollout F). z.route_model) new'))
        | inr (away', old') ↦ v.one_active j i x y old old' same act act'
      ]
    ];
  }

  Change-IsConsistent : {s t : MemoryStore F} → Change s t → IsConsistent s → IsConsistent t
  Change-IsConsistent {s} (moves r q found move e) v =
      let (_, same_id, same_model, _, _, _, _, was_active) = Move-keeps move in
      subst IsConsistent (sym e) (
        write-IsConsistent r.id q s v same_id (Move-IsSound move (v.sound r.id r found))
          λ act j x away found' model. elim (Bool-cases (is_active_state x.state)) [
            | inl on ↦ absurd (
                away
                  (v.one_active r.id j r x found found' (sym same_model ∙ sym model) was_active on))
            | inr off ↦ off
          ])
  Change-IsConsistent {s} (begins r fresh idle good e) v =
      subst IsConsistent (sym e)
        (write-IsConsistent r.id r s v refl good λ act j x away found model. idle j x found model)

  -- Every history of changes keeps the store consistent: keyed by ID, sound, and with at most one
  -- active rollout for a model.
  pub Reach-IsConsistent : {s t : MemoryStore F} → IsConsistent s → Reach s t → IsConsistent t
  Reach-IsConsistent v here = v
  Reach-IsConsistent v (next path change) = Change-IsConsistent change (Reach-IsConsistent v path)

  pub Reach-trans : {s t u : MemoryStore F} → Reach s t → Reach t u → Reach s u
  Reach-trans p here = p
  Reach-trans p (next path change) = next (Reach-trans p path) change

  -- A rollout that is over stays in the store as it is.
  Change-over :
      {s t : MemoryStore F} (k : String) (r : Rollout F)
      → Change s t
      → IsConsistent s
      → lookup k s ≡ some r
      → IsOver r
      → lookup k t ≡ some r
  Change-over {s} k r (moves p q found move e) v found' over = elim (Bool-cases (str_eq p.id k)) [
    | inl same ↦
        let equal : p ≡ r = ground (arith, eq_iff p.id k) in
        absurd ((Move-keeps move).0 (subst IsOver (sym equal) over))
    | inr other ↦ rw (e, lookup-insert) (ground arith)
  ]
  Change-over {s} k r (begins p fresh idle good e) v found' over =
      rw (e, lookup-insert) (ground (arith, eq_iff p.id k))

  pub Reach-over :
      {s t : MemoryStore F} (k : String) (r : Rollout F)
      → IsConsistent s
      → Reach s t
      → lookup k s ≡ some r
      → IsOver r
      → lookup k t ≡ some r
  Reach-over k r v here found over = found
  Reach-over k r v (next path change) found over =
      Change-over k r change (Reach-IsConsistent v path) (Reach-over k r v path found over) over
