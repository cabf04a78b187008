-- ===== src/Analytics/Alerts.antt =====
-- internal/analytics/alerts.go: the alerts that are active, those that are resolved, and how an alert
-- passes from the one to the other. The clock and the order of a range over a map are arguments.
-- A counter never comes near the bound of its integer.
pub mod Lifecycle
mod Tests
use Prim.Native.String.{◌++◌ as str_append}
use mathlib.Core.List.{◌++◌}
use aigateway.Prelude.{
  ℕ, ◌+◌, String, Bool, true, false, Option, none, some, List, [], ◌∷◌, reverse, length, take, drop,
  ltb, leb, not, if◌then◌else◌, str_eq, ◌&&◌,
}
use aigateway.Prelude.Dict.{Dict, lookup, insert, remove}
use aigateway.Webhook.{Event, Notifier, send}

module _ (F : Type 0) where
  pub record Alert : Type 0 where
    pub id : String
    pub severity : String
    pub type : String
    pub dimension : String
    pub metric : String
    pub value : F
    pub threshold : F
    pub message : String
    pub state : String
    pub created_at : ℕ
    pub resolved_at : Option ℕ

  pub record AlertManager : Type 0 where
    pub active : Dict Alert
    pub history : List Alert
    pub max_history : ℕ
    pub webhook : Option Notifier
    pub normal_counters : Dict ℕ
    pub resolve_after : ℕ

unfoldable pub alert_key : String → String → String
alert_key dimension metric = str_append dimension (str_append ":" metric)

abbrev pub count_of : Option ℕ → ℕ
count_of none = 0
count_of (some n) = n

module _ {F : Type 0} where
  unfoldable pub new_alert_manager : Option Notifier → AlertManager F
  new_alert_manager webhook = record {
    active = [];
    history = [];
    max_history = 500;
    webhook = webhook;
    normal_counters = [];
    resolve_after = 5;
  }

  abbrev pub key_of : Alert F → String
  unfolding alert_key
  key_of a = alert_key a.dimension a.metric

  abbrev pub anomaly_event : Alert F → Event
  anomaly_event a = record {
    event_type = str_append "anomaly_" a.severity;
    policy_name = "";
    action = a.severity;
    tenant_id = a.dimension;
    model = a.metric;
    message = a.message;
  }

  -- An alert of this round: its key is normal no longer, and unless one with its key is active it is
  -- added and announced.
  unfoldable pub raise : Alert F → AlertManager F → AlertManager F
  raise a am =
      let counted : AlertManager F = record am {
        normal_counters = insert (key_of a) 0 am.normal_counters;
      } in
      elim (lookup (key_of a) am.active) [
        | some old ↦ counted
        | none ↦ record counted {
          active = insert (key_of a) a am.active;
          webhook = send (anomaly_event a) am.webhook;
        }
      ]

  -- The first loop of `ProcessAlerts`.
  unfoldable pub raise_all : List (Alert F) → AlertManager F → AlertManager F
  unfolding raise
  raise_all [] am = am
  raise_all (a ∷ alerts) am = raise_all alerts (raise a am)

  -- The keys of this round's alerts.
  unfoldable pub is_alerted : List (Alert F) → String → Bool
  is_alerted [] key = false
  is_alerted (a ∷ alerts) key =
      let rest = is_alerted alerts key in if str_eq (key_of a) key then true else rest

  abbrev pub capped : ℕ → List (Alert F) → List (Alert F)
  capped bound history = if ltb bound (length history) then drop 1 history else history

  abbrev pub resolved : ℕ → Alert F → Alert F
  resolved now a = record a { state = "resolved"; resolved_at = some now }

  -- One more normal round of an active alert.
  unfoldable pub settle : ℕ → String → Alert F → AlertManager F → AlertManager F
  settle now key a am =
      let n = count_of (lookup key am.normal_counters) + 1 in
      if leb am.resolve_after n
      then (record am {
        history = capped am.max_history (am.history ++ resolved now a ∷ []);
        active = remove key am.active;
        normal_counters = remove key am.normal_counters;
      })
      else (record am { normal_counters = insert key n am.normal_counters })

  -- The second loop, over the alerts that are active when it starts.
  unfoldable pub settle_all : ℕ → List (Alert F) → Dict (Alert F) → AlertManager F → AlertManager F
  unfolding settle
  settle_all now alerts [] am = am
  settle_all now alerts ((key, a) ∷ rest) am =
      settle_all now alerts rest (if is_alerted alerts key then am else settle now key a am)

  unfoldable pub process_alerts :
      (Dict (Alert F) → Dict (Alert F)) → ℕ → List (Alert F) → AlertManager F → AlertManager F
  unfolding raise_all settle_all is_alerted
  process_alerts order now alerts am =
      let raised = raise_all alerts am in settle_all now alerts (order raised.active) raised

  abbrev alerts_of : Dict (Alert F) → List (Alert F)
  alerts_of [] = []
  alerts_of ((key, a) ∷ m) = a ∷ alerts_of m

  unfoldable pub active_alerts : (Dict (Alert F) → Dict (Alert F)) → AlertManager F → List (Alert F)
  active_alerts order am = alerts_of (order am.active)

  -- At most `limit` alerts, or all of them with a limit of 0; the resolved ones newest first.
  unfoldable pub recent_alerts :
      (Dict (Alert F) → Dict (Alert F)) → ℕ → AlertManager F → List (Alert F)
  recent_alerts order limit am =
      let all = alerts_of (order am.active) ++ reverse am.history in
      if ltb 0 limit && ltb limit (length all) then take limit all else all

  -- The loop of `Acknowledge`: the first alert with the identifier changes its state.
  unfoldable pub acknowledge_in : String → Dict (Alert F) → Bool × Dict (Alert F)
  acknowledge_in id [] = (false, [])
  acknowledge_in id ((key, a) ∷ rest) =
      let (found, rest') = acknowledge_in id rest in
      if str_eq a.id id
      then (true, (key, record a { state = "acknowledged" }) ∷ rest)
      else (found, (key, a) ∷ rest')

  unfoldable pub acknowledge : String → AlertManager F → Bool × AlertManager F
  unfolding acknowledge_in
  acknowledge id am =
      let (found, active) = acknowledge_in id am.active in (found, record am { active = active })
