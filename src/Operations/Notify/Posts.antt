-- ===== src/Operations/Notify/Posts.antt =====
-- What a call of Failover posts to the webhook.
use mathlib.Core.Path.{subst}
use redis_admin.Sentinel.Topology.{NodeAddresses, get_node_addresses}
use redis_admin.Base.{
  str, sym, ℕ, ◌≡◌, ◌≢◌, refl, ap, ◌∙◌, ◌⊎◌, inl, inr, Bool, true, false, Option, none, some, List,
  [], ◌∷◌, ◌++◌, Str, is_empty, if◌then◌else◌, append-nil,
}
use redis_admin.Errors.{Err, Result, ok}
use redis_admin.Config.{Config}
use redis_admin.Redis.{Redis}
use redis_admin.Operations.Failover.{
  Effect, sent_failover, notified, FailoverResult, Outcome, Wait, failover,
}
use redis_admin.Operations.Failover.Safety.{
  Ending, refused, previewed, attempted, switched, failover-Ending,
}
use redis_admin.Operations.Notify.{
  Delivery, no_webhook, build_failed, WebhookPayload, by_status, failover_payload, send,
  notify_failover,
}

module _ (build : Str → Option Err) (post : Str → WebhookPayload → Result ℕ) where
  -- the payloads that the notifications among the effects post
  unfoldable pub posts : Str → ℕ → List Effect → List WebhookPayload
  unfolding notify_failover
  posts url now [] = []
  posts url now (sent_failover s m ∷ es) = posts url now es
  posts url now (notified old new ∷ es) =
      (notify_failover url build post old new now).0 ++ posts url now es

  -- no payload, or the one of a real switch of the master to a configured webhook, with the master that
  -- the sentinels named before and the one that the call returns
  pub data Posted (r : Redis) (cfg : Config) (dry_run : Bool) (o : Outcome) (now : ℕ)
      (ps : List WebhookPayload) : Type 0 where
    silent : ps ≡ [] → Posted r cfg dry_run o now ps
    announced :
        (addrs : NodeAddresses) (res : FailoverResult) (p : WebhookPayload)
        → get_node_addresses r cfg ≡ ok addrs
        → o.result ≡ some res
        → o.error ≡ none
        → dry_run ≡ false
        → is_empty cfg.webhook_url ≡ false
        → ps ≡ p ∷ []
        → p.event ≡ str "failover"
        → p.old_master ≡ addrs.master
        → p.new_master ≡ res.new_master
        → p.message
          ≡ str "Redis master failed over from " ++ addrs.master ++ str " to " ++ res.new_master
        → p.timestamp ≡ now
        → is_empty res.new_master ≡ false
        → res.new_master ≢ addrs.master
        → Posted r cfg dry_run o now ps

  sends :
      (url old new : Str) (now : ℕ)
      → ((notify_failover url build post old new now).0 ≡ [])
        ⊎ ((is_empty url ≡ false)
            × ((notify_failover url build post old new now).0 ≡ failover_payload old new now ∷ []))
  unfolding notify_failover send
  sends url old new now = go (is_empty url) (build url) refl
    where
      go :
          (b : Bool) (q : Option Err)
          → is_empty url ≡ b
          → ((if b then ([], no_webhook) else elim q as (λ x. List WebhookPayload × Delivery) [
            | some e ↦ ([], build_failed)
            | none ↦ (
              failover_payload old new now ∷ [],
              by_status (post url (failover_payload old new now)),
            )
          ]).0
              ≡ [])
            ⊎ ((is_empty url ≡ false)
                × ((if b
                      then ([], no_webhook)
                      else elim q as (λ x. List WebhookPayload × Delivery) [
                        | some e ↦ ([], build_failed)
                        | none ↦ (
                          failover_payload old new now ∷ [],
                          by_status (post url (failover_payload old new now)),
                        )
                      ]).0
                    ≡ failover_payload old new now ∷ []))
      go true q e = inl refl
      go false (some x) e = inl refl
      go false none e = inr (e, refl)

  Ending-Posted :
      (r : Redis) (cfg : Config) (dry_run : Bool) (o : Outcome) (now : ℕ)
      → Ending r cfg dry_run o
      → Posted r cfg dry_run o now (posts cfg.webhook_url now o.effects)
  unfolding posts
  Ending-Posted r cfg dry_run o now (refused e x y) = silent (ap (posts cfg.webhook_url now) y)
  Ending-Posted r cfg dry_run o now (previewed addrs best res d c e s) =
      silent (ap (λ (x : Outcome). posts cfg.webhook_url now x.effects) e)
  Ending-Posted r cfg dry_run o now (attempted addrs best a e d c x y) =
      silent (ap (posts cfg.webhook_url now) y)
  Ending-Posted r cfg dry_run o now (switched addrs best a m res d c x s n k l) =
      let to =
        ap (λ (x : Outcome). posts cfg.webhook_url now x.effects) x
        ∙ append-nil (notify_failover cfg.webhook_url build post addrs.master m now).0 in
      elim (sends cfg.webhook_url addrs.master m now) [
        | inl nothing ↦ silent (to ∙ nothing)
        | inr sent ↦
            announced addrs res (failover_payload addrs.master m now) c.resolved
              (ap (λ (x : Outcome). x.result) x) (ap (λ (x : Outcome). x.error) x) d sent.0
              (to ∙ sent.1) refl refl (sym n)
              (ap (λ t. str "Redis master failed over from " ++ addrs.master ++ str " to " ++ t)
                (sym n))
              refl (subst (λ t. is_empty t ≡ false) (sym n) k)
              (subst (λ t. t ≢ addrs.master) (sym n) l)
      ]

  -- A call of Failover posts at most one payload, and one only in a real run that returned no error,
  -- to a webhook that is configured: it names the master that the sentinels named before the run as the
  -- old one and the master that the call returns, which is not empty and not the old one, as the new one.
  pub failover-Posted :
      (r : Redis) (cfg : Config) (w : Wait) (el : ℕ) (dry_run : Bool) (o : Outcome) (now : ℕ)
      → failover r cfg w el dry_run ≡ some o
      → Posted r cfg dry_run o now (posts cfg.webhook_url now o.effects)
  failover-Posted r cfg w el dry_run o now h =
      Ending-Posted r cfg dry_run o now (failover-Ending r cfg w el dry_run o h)
