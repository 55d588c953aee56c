-- ===== src/Operations/Notify.antt =====
-- internal/operations/notify.go: the webhook. What net/http makes of a request is a parameter: the error
-- of building it, and the status or the error of sending it.
pub mod Posts
use redis_admin.Base.{
  ℕ, ◌≡◌, ◌≢◌, refl, ap, sym, ◌∙◌, Bool, true, false, Option, none, some, List, [], ◌∷◌, ◌++◌, Str,
  str, is_empty, leb, if◌then◌else◌,
}
use redis_admin.Errors.{Err, Result, ok, err}
use redis_admin.Config.{Config}
use redis_admin.Operations.Failover.{Effect, sent_failover, notified}

pub record WebhookPayload : Type 0 where
  pub event : Str
  pub old_master : Str
  pub new_master : Str
  pub message : Str
  pub timestamp : ℕ

-- what `send` logs, and nothing where no webhook is configured
pub data Delivery : Type 0 where
  no_webhook build_failed delivery_failed : Delivery
  non_2xx delivered : ℕ → Delivery

abbrev by_status : Result ℕ → Delivery
by_status (err e) = delivery_failed
by_status (ok status) = if leb 300 status then non_2xx status else delivered status

-- send: the payloads that were posted, and what became of them; the payload has only texts and a time,
-- so that json.Marshal does not fail
unfoldable pub send :
    Str
    → (Str → Option Err)
    → (Str → WebhookPayload → Result ℕ)
    → WebhookPayload
    → List WebhookPayload × Delivery
send url build post p =
    if is_empty url
    then ([], no_webhook)
    else elim (build url) [ some e ↦ ([], build_failed) | none ↦ (p ∷ [], by_status (post url p)) ]

abbrev failover_payload : Str → Str → ℕ → WebhookPayload
failover_payload old new now = record {
  event = str "failover";
  old_master = old;
  new_master = new;
  message = str "Redis master failed over from " ++ old ++ str " to " ++ new;
  timestamp = now;
}

-- notifyFailover
unfoldable pub notify_failover :
    Str
    → (Str → Option Err)
    → (Str → WebhookPayload → Result ℕ)
    → Str
    → Str
    → ℕ
    → List WebhookPayload × Delivery
unfolding send
notify_failover url build post old new now = send url build post (failover_payload old new now)
