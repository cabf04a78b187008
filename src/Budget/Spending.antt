-- ===== src/Budget/Spending.antt =====
-- internal/budget/budget.go and internal/gateway/handler.go: histories of spending. The handler
-- records what a request costs after `Check` allowed it; a request with no tenant is not checked.
use aigateway.Prelude.{
  ℕ, ◌≡◌, ◌≢◌, refl, sym, ap, subst, ◌∙◌, String, true, false, Option, none, some, List, [], ◌∷◌,
  arith, All, if◌then◌else◌, Bool-cases, inl, inr, not, ◌&&◌, ◌==◌, str_eq, eq_iff,
}
use mathlib.Core.List.{Memᴰ}
use aigateway.Prelude.Dict.{Dict, lookup, lookup-insert}
use aigateway.Float.{Float64}
use aigateway.Budget.{
  SpendScope, SpendTracker, Manager, Messages, tenant_model_key, scope_key, charged,
  tracker_or_fresh, charge_key, record_spend, check,
}
use aigateway.Budget.Verdict.{is_exhausted, check_exact}

-- A request that costs something, and the month in which it is recorded.
pub record Spend (F : Type 0) : Type 0 where
  pub month : ℕ
  pub tenant_id : String
  pub model : String
  pub cost : F

module _ (fl : Float64) where
  open fl use {F, of_int, add}

  unfoldable pub spend : Messages fl → Spend F → Manager F → Manager F
  spend msgs q m =
      if not (str_eq q.tenant_id "") && not (check fl msgs q.tenant_id q.model m).allowed
      then m
      else record_spend fl q.month q.tenant_id q.model q.cost m

  pub spends_of : Messages fl → List (Spend F) → Manager F → Manager F
  spends_of msgs [] m = m
  spends_of msgs (q ∷ qs) m = spends_of msgs qs (spend msgs q m)

  -- A global scope is exhausted for one request if it is for another.
  exhausted_for_all :
      (spends : Dict (SpendTracker F)) (t t' model model' : String) (s : SpendScope F)
      → s.scope ≡ "global"
      → is_exhausted fl spends t model s ≡ true
      → is_exhausted fl spends t' model' s ≡ true
  unfolding is_exhausted scope_key
  exhausted_for_all spends t t' model model' s global h =
      let key : scope_key t model s ≡ some "global" =
        ground (arith, eq_iff s.scope "global", global) in
      let key' : scope_key t' model' s ≡ some "global" =
        ground (arith, eq_iff s.scope "global", global) in
      ground (arith, key, key', h)

  All-Memᴰ :
      (P : SpendScope F → Type 0) (ss : List (SpendScope F)) (s : SpendScope F)
      → All P ss
      → Memᴰ s ss
      → P s
  All-Memᴰ P [] s all m = elim m [ ]
  All-Memᴰ P (x ∷ ss) s all (Memᴰ.head e) = subst P (sym e) all.0
  All-Memᴰ P (x ∷ ss) s all (Memᴰ.tail m) = All-Memᴰ P ss s all.1 m

  spend_refused :
      (msgs : Messages fl) (q : Spend F) (m : Manager F)
      → q.tenant_id ≢ ""
      → (check fl msgs q.tenant_id q.model m).allowed ≡ false
      → spend msgs q m ≡ m
  unfolding spend
  spend_refused msgs q m named refused = ground (arith, eq_iff q.tenant_id "", named, refused)

  -- Once a global budget is used up, nothing that tenants request changes it, in this month or in
  -- any later one: `Check` does not look at the month, and only `RecordSpend` begins a new one.
  pub block_lasts :
      (msgs : Messages fl) (t model : String) (s : SpendScope F) (qs : List (Spend F))
      (m : Manager F)
      → Memᴰ s m.scopes
      → s.scope ≡ "global"
      → is_exhausted fl m.spends t model s ≡ true
      → All (λ q. q.tenant_id ≢ "") qs
      → spends_of msgs qs m ≡ m
  unfolding spends_of
  block_lasts msgs t model s [] m there global used_up named = refl
  block_lasts msgs t model s (q ∷ qs) m there global used_up named =
      let exhausted = exhausted_for_all m.spends t q.tenant_id model q.model s global used_up in
      let refused : (check fl msgs q.tenant_id q.model m).allowed ≡ false =
        elim (Bool-cases (check fl msgs q.tenant_id q.model m).allowed) [
          | inr refused ↦ refused
          | inl allowed ↦
              let all = (check_exact fl msgs q.tenant_id q.model m).0 allowed in
              absurd (
                ground (
                  arith,
                  exhausted,
                  All-Memᴰ (λ x. is_exhausted fl m.spends q.tenant_id q.model x ≡ false) m.scopes s
                      all there,
                ))
        ] in
      let stays : spend msgs q m ≡ m = spend_refused msgs q m named.0 refused in
      ap (spends_of msgs qs) stays ∙ block_lasts msgs t model s qs m there global used_up named.1

  -- The specification: costs added one after the other, from what was there at the beginning.
  pub total : F → List (Spend F) → F
  total sum [] = sum
  total sum (q ∷ qs) = total (add sum q.cost) qs

  -- What was spent in a month, by the tracker that may be there.
  pub spent_in : ℕ → Option (SpendTracker F) → F
  spent_in month none = of_int 0
  spent_in month (some t) = if month == t.current_period then t.accumulated else of_int 0

  -- `RecordSpend` for each request in turn.
  pub record_all : List (Spend F) → Manager F → Manager F
  record_all [] m = m
  record_all (q ∷ qs) m = record_all qs (record_spend fl q.month q.tenant_id q.model q.cost m)

  -- Neither key of the request is the one of the global budget.
  abbrev pub Apart : ℕ → Spend F → Type 0
  Apart month q =
      (q.month ≡ month)
      × (q.tenant_id ≢ "global")
      × (tenant_model_key q.tenant_id q.model ≢ "global")

  charge_key_self :
      (month : ℕ) (cost : F) (key : String) (spends : Dict (SpendTracker F))
      → lookup key (charge_key fl month cost key spends)
        ≡ some (charged fl month cost (tracker_or_fresh fl month (lookup key spends)))
  unfolding charge_key
  charge_key_self month cost key spends = ground (
    arith,
    eq_iff key key,
    lookup-insert key key (charged fl month cost (tracker_or_fresh fl month (lookup key spends)))
        spends,
  )

  charge_key-other :
      (month : ℕ) (cost : F) (key other : String) (spends : Dict (SpendTracker F))
      → key ≢ other
      → lookup other (charge_key fl month cost key spends) ≡ lookup other spends
  unfolding charge_key
  charge_key-other month cost key other spends apart = ground (
    arith,
    eq_iff key other,
    lookup-insert key other (charged fl month cost (tracker_or_fresh fl month (lookup key spends)))
        spends,
    apart,
  )

  global_charged :
      (month : ℕ) (q : Spend F) (m : Manager F)
      → Apart month q
      → lookup "global" (record_spend fl q.month q.tenant_id q.model q.cost m).spends
        ≡ some (record {
          current_period = month;
          accumulated = add (spent_in month (lookup "global" m.spends)) q.cost;
        })
  unfolding record_spend spent_in
  global_charged month q m h =
      let first = charge_key fl q.month q.cost "global" m.spends in
      let second = charge_key fl q.month q.cost q.tenant_id first in
      ground (
        arith,
        charge_key-other q.month q.cost (tenant_model_key q.tenant_id q.model) "global" second,
        charge_key-other q.month q.cost q.tenant_id "global" first,
        charge_key_self q.month q.cost "global" m.spends,
      )

  -- The spends of a month, from the first on, leave the global tracker at that month, with the
  -- costs added to what had been spent in the month before, where no tenant and no model makes
  -- the key of the global budget; what was spent in other months is forgotten.
  pub record_all-total :
      (month : ℕ) (q : Spend F) (qs : List (Spend F)) (m : Manager F)
      → Apart month q
      → All (Apart month) qs
      → lookup "global" (record_all (q ∷ qs) m).spends
        ≡ some (record {
          current_period = month;
          accumulated = total (spent_in month (lookup "global" m.spends)) (q ∷ qs);
        })
  unfolding record_all total
  record_all-total month q [] m h all = global_charged month q m h
  record_all-total month q (p ∷ qs) m h all =
      let next = record_spend fl q.month q.tenant_id q.model q.cost m in
      let now : spent_in month (lookup "global" next.spends)
          ≡ add (spent_in month (lookup "global" m.spends)) q.cost =
        ap (spent_in month) (global_charged month q m h) ∙ (unfold spent_in in ground arith) in
      record_all-total month p qs next all.0 all.1
      ∙ ap
          (λ sum. some (record { current_period = month; accumulated = total (add sum p.cost) qs }))
          now
