-- ===== src/Analytics/Alerts/Lifecycle.antt =====
-- internal/analytics/alerts.go: what `ProcessAlerts` makes of one key.
use aigateway.Prelude.{
  ℕ, ◌+◌, ◌≡◌, refl, String, Bool, true, false, none, some, List, [], ◌∷◌, All, length, ◌<◌, arith,
  leb, str_eq, eq_iff, if◌then◌else◌, Bool-cases, inl, inr,
}
use aigateway.Prelude.Dict.{
  Dict, lookup, IsMap, IsRange, lookup-insert, lookup-remove, insert-IsMap, remove-IsMap,
}
use aigateway.Analytics.Alerts.{
  Alert, AlertManager, key_of, count_of, raise, raise_all, is_alerted, settle, settle_all,
  process_alerts,
}

-- A key has no active alert, or one that has been normal for some rounds.
pub data Status : Type 0 where
  inactive : Status
  normal_for : ℕ → Status

-- A round in which a key is alerted, and one in which it is not.
unfoldable pub next : ℕ → Bool → Status → Status
next resolve_after true s = normal_for 0
next resolve_after false inactive = inactive
next resolve_after false (normal_for n) =
    if leb resolve_after (n + 1) then inactive else normal_for (n + 1)

module _ {F : Type 0} where
  unfoldable pub status : String → AlertManager F → Status
  status k am = elim (lookup k am.active) [
    | none ↦ inactive
    | some a ↦ normal_for (count_of (lookup k am.normal_counters))
  ]

  status-raise :
      (k : String) (a : Alert F) (am : AlertManager F)
      → status k (raise a am) ≡ (if str_eq (key_of a) k then normal_for 0 else status k am)
  unfolding status raise
  status-raise k a am = ground (
    arith,
    lookup-insert (key_of a) k 0 am.normal_counters,
    lookup-insert (key_of a) k a am.active,
    eq_iff (key_of a) k,
  )

  status-raise_all :
      (k : String) (alerts : List (Alert F)) (am : AlertManager F)
      → status k (raise_all alerts am) ≡ (if is_alerted alerts k then normal_for 0 else status k am)
  unfolding raise_all is_alerted
  status-raise_all k [] am = refl
  status-raise_all k (a ∷ alerts) am =
      ground (arith, status-raise_all k alerts (raise a am), status-raise k a am)

  status-settle :
      (now : ℕ) (k key : String) (a : Alert F) (am : AlertManager F)
      → status k (settle now key a am)
        ≡ (if str_eq key k then next am.resolve_after false (status k am) else status k am)
  unfolding status settle next
  status-settle now k key a am =
      let n = count_of (lookup key am.normal_counters) + 1 in
      ground (
        arith,
        lookup-insert key k n am.normal_counters,
        lookup-remove key k am.active,
        lookup-remove key k am.normal_counters,
        eq_iff key k,
      )

  resolve_after-settle :
      (now : ℕ) (key : String) (a : Alert F) (am : AlertManager F)
      → (settle now key a am).resolve_after ≡ am.resolve_after
  unfolding settle
  resolve_after-settle now key a am = ground arith

  -- A key that the range does not visit keeps its status; one that it visits has a normal round,
  -- unless it is alerted.
  status-settle_all :
      (now : ℕ) (k : String) (alerts : List (Alert F)) (rest : Dict (Alert F)) (am : AlertManager F)
      → IsMap rest
      → status k (settle_all now alerts rest am) ≡ elim (lookup k rest) [
        | none ↦ status k am
        | some a ↦
            if is_alerted alerts k then status k am else next am.resolve_after false (status k am)
      ]
  unfolding settle_all lookup
  status-settle_all now k alerts [] am h = refl
  status-settle_all now k alerts ((key, a) ∷ rest) am h =
      elim (Bool-cases (is_alerted alerts key)) [
        | inl alerted ↦
            ground (arith, alerted, status-settle_all now k alerts rest am h.1, h.0, eq_iff key k)
        | inr normal ↦ ground (
          arith,
          normal,
          status-settle_all now k alerts rest (settle now key a am) h.1,
          status-settle now k key a am,
          resolve_after-settle now key a am,
          h.0,
          eq_iff key k,
        )
      ]

  raise-IsMap : (a : Alert F) (am : AlertManager F) → IsMap am.active → IsMap (raise a am).active
  unfolding raise
  raise-IsMap a am h = ground (arith, insert-IsMap (key_of a) a am.active)

  raise_all-IsMap :
      (alerts : List (Alert F)) (am : AlertManager F)
      → IsMap am.active
      → IsMap (raise_all alerts am).active
  unfolding raise_all
  raise_all-IsMap [] am h = h
  raise_all-IsMap (a ∷ alerts) am h = raise_all-IsMap alerts (raise a am) (raise-IsMap a am h)

  resolve_after-raise_all :
      (alerts : List (Alert F)) (am : AlertManager F)
      → (raise_all alerts am).resolve_after ≡ am.resolve_after
  unfolding raise_all raise
  resolve_after-raise_all [] am = refl
  resolve_after-raise_all (a ∷ alerts) am =
      ground (arith, resolve_after-raise_all alerts (raise a am))

  -- A round of alerts makes of every key what the specification says, whatever the order in which the
  -- map is visited: an alerted key is active and has no normal round, an active one that is not alerted
  -- has one normal round more, and is resolved with the last of them.
  pub process_alerts-next :
      (order : Dict (Alert F) → Dict (Alert F)) (now : ℕ) (alerts : List (Alert F))
      (am : AlertManager F) (k : String)
      → IsRange order
      → IsMap am.active
      → status k (process_alerts order now alerts am)
        ≡ next am.resolve_after (is_alerted alerts k) (status k am)
  unfolding process_alerts status next
  process_alerts-next order now alerts am k r h =
      let raised = raise_all alerts am in
      let is_map = raise_all-IsMap alerts am h in
      let settled =
        status-settle_all now k alerts (order raised.active) raised (r.once raised.active is_map) in
      ground (
        arith,
        settled,
        r.same raised.active k is_map,
        status-raise_all k alerts am,
        resolve_after-raise_all alerts am,
      )

  settle-IsMap :
      (now : ℕ) (key : String) (a : Alert F) (am : AlertManager F)
      → IsMap am.active
      → IsMap (settle now key a am).active
  unfolding settle
  settle-IsMap now key a am h = ground (arith, remove-IsMap key am.active)

  settle_all-IsMap :
      (now : ℕ) (alerts : List (Alert F)) (rest : Dict (Alert F)) (am : AlertManager F)
      → IsMap am.active
      → IsMap (settle_all now alerts rest am).active
        × ((settle_all now alerts rest am).resolve_after ≡ am.resolve_after)
  unfolding settle_all
  settle_all-IsMap now alerts [] am h = (h, refl)
  settle_all-IsMap now alerts ((key, a) ∷ rest) am h = ground (
    arith,
    settle_all-IsMap now alerts rest am h,
    settle_all-IsMap now alerts rest (settle now key a am) (settle-IsMap now key a am h),
    resolve_after-settle now key a am,
  )

  -- Rounds of alerts, one after the other, each with its clock reading.
  unfoldable pub run :
      (Dict (Alert F) → Dict (Alert F))
      → List (ℕ × List (Alert F))
      → AlertManager F
      → AlertManager F
  run order [] am = am
  run order ((now, alerts) ∷ rounds) am = run order rounds (process_alerts order now alerts am)

  process_alerts-IsMap :
      (order : Dict (Alert F) → Dict (Alert F)) (now : ℕ) (alerts : List (Alert F))
      (am : AlertManager F)
      → IsMap am.active
      → IsMap (process_alerts order now alerts am).active
        × ((process_alerts order now alerts am).resolve_after ≡ am.resolve_after)
  unfolding process_alerts
  process_alerts-IsMap order now alerts am h =
      let raised = raise_all alerts am in
      ground (
        arith,
        settle_all-IsMap now alerts (order raised.active) raised (raise_all-IsMap alerts am h),
        resolve_after-raise_all alerts am,
      )

  stays_inactive :
      (order : Dict (Alert F) → Dict (Alert F)) (k : String) (rounds : List (ℕ × List (Alert F)))
      (am : AlertManager F)
      → IsRange order
      → IsMap am.active
      → All (λ r. is_alerted r.1 k ≡ false) rounds
      → status k am ≡ inactive
      → status k (run order rounds am) ≡ inactive
  unfolding run next
  stays_inactive order k [] am r h quiet e = e
  stays_inactive order k ((now, alerts) ∷ rounds) am r h quiet e =
      let (is_map, same) = process_alerts-IsMap order now alerts am h in
      stays_inactive order k rounds (process_alerts order now alerts am) r is_map quiet.1
        (ground (arith, process_alerts-next order now alerts am k r h, quiet.0, e))

  -- An alert whose key is not alerted any more stays active, and is resolved in exactly the round
  -- that makes its normal rounds as many as `resolve_after`; it then stays resolved.
  pub run-resolves :
      (order : Dict (Alert F) → Dict (Alert F)) (k : String) (rounds : List (ℕ × List (Alert F)))
      (am : AlertManager F) (n : ℕ)
      → IsRange order
      → IsMap am.active
      → All (λ r. is_alerted r.1 k ≡ false) rounds
      → status k am ≡ normal_for n
      → n < am.resolve_after
      → status k (run order rounds am) ≡ (
          if leb am.resolve_after (n + length rounds)
          then inactive
          else normal_for (n + length rounds))
  unfolding run next
  run-resolves order k [] am n r h quiet e less = ground (arith, e)
  run-resolves order k ((now, alerts) ∷ rounds) am n r h quiet e less =
      let (is_map, same) = process_alerts-IsMap order now alerts am h in
      let after = process_alerts order now alerts am in
      let step = process_alerts-next order now alerts am k r h in
      elim (Bool-cases (leb am.resolve_after (n + 1))) [
        | inl last ↦ ground (
          arith,
          stays_inactive order k rounds after r is_map quiet.1
              (ground (arith, step, quiet.0, e, last)),
        )
        | inr more ↦ ground (
          arith,
          same,
          run-resolves order k rounds after (n + 1) r is_map quiet.1
              (ground (arith, step, quiet.0, e, more)) (ground (arith, same)),
        )
      ]
