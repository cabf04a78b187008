-- ===== src/Webhook.antt =====
-- internal/webhook/webhook.go: the notifier. `Send` posts an event on a goroutine of its own and drops
-- what comes back, so a notifier is its address and the events that were handed to it, oldest first.
-- The time that is stamped on an event is left out.
use aigateway.Prelude.{String, Option, none, some, List, [], ◌∷◌, ◌++◌, str_eq, if◌then◌else◌}

pub record Event : Type 0 where
  pub event_type : String
  pub policy_name : String
  pub action : String
  pub tenant_id : String
  pub model : String
  pub message : String

pub record Notifier : Type 0 where
  pub url : String
  pub sent : List Event

unfoldable pub new_notifier : String → Option Notifier
new_notifier url = if str_eq url "" then none else some (record { url = url; sent = [] })

unfoldable pub send : Event → Option Notifier → Option Notifier
send event none = none
send event (some n) = some (record n { sent = n.sent ++ event ∷ [] })
