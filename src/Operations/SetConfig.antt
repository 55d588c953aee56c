-- ===== src/Operations/SetConfig.antt =====
-- internal/operations/configdiff.go: SetConfig, which records what it changed in the audit log.
use redis_admin.Base.{
  ℕ, ap, Dict, lookup, ◌≡◌, refl, ◌∙◌, Option, none, some, List, [], ◌∷◌, ◌++◌, Str, str,
  lookup_str,
}
use redis_admin.Errors.{Err, wrap, Result, ok, err}
use redis_admin.Redis.{Redis}
use redis_admin.Ring.{last}
use redis_admin.Operations.Audit.{
  AuditEntry, new_audit_log, record_entry, record_all, record_all-last,
}

-- the arguments of SetConfig
pub record Change : Type 0 where
  pub node_addr : Str
  pub key : Str
  pub value : Str
  pub remote_ip : Str

unfoldable pub fetch_config_key : Redis → Str → Str → Result Str
unfolding lookup_str
fetch_config_key r addr key = elim (r.config_get addr key) [
  | err e ↦ err (wrap (str "CONFIG GET " ++ key) e)
  | ok vals ↦ ok (lookup_str key vals)
]

abbrev old_value_of : Result Str → Str
old_value_of (err e) = str "<unknown>"
old_value_of (ok v) = v

-- what is recorded at the time `now`
unfoldable pub entry_of : Redis → ℕ → Change → AuditEntry
unfolding fetch_config_key
entry_of r now c = record {
  timestamp = now;
  node_addr = c.node_addr;
  key = c.key;
  old_value = old_value_of (fetch_config_key r c.node_addr c.key);
  new_value = c.value;
  remote_ip = c.remote_ip;
}

-- SetConfig: its error, and the audit log after it
unfoldable pub set_config : Redis → ℕ → List AuditEntry → Change → Option Err × List AuditEntry
unfolding entry_of record_entry
set_config r now log c = elim (r.config_set c.node_addr c.key c.value) [
  | some e ↦ (some (wrap (str "CONFIG SET") e), log)
  | none ↦ (none, record_entry log (entry_of r now c))
]

-- requests one after the other, each with the nodes' replies and the time at which it is served
pub record Request : Type 0 where
  pub nodes : Redis
  pub now : ℕ
  pub change : Change

unfoldable pub serve_all : List AuditEntry → List Request → List AuditEntry
unfolding set_config
serve_all log [] = log
serve_all log (q ∷ qs) = serve_all (set_config q.nodes q.now log q.change).1 qs

-- what CONFIG GET gave before the change: the value of the key, empty where the reply does not have it
abbrev value_before : Str → Result (Dict Str) → Str
value_before key (ok vals) = elim (lookup key vals) [ some v ↦ v | none ↦ [] ]
value_before key (err e) = str "<unknown>"

-- the entry that a request is to leave
abbrev pub written : Request → AuditEntry
written q = record {
  timestamp = q.now;
  node_addr = q.change.node_addr;
  key = q.change.key;
  old_value = value_before q.change.key (q.nodes.config_get q.change.node_addr q.change.key);
  new_value = q.change.value;
  remote_ip = q.change.remote_ip;
}

-- the entries of the requests whose CONFIG SET the node accepted
unfoldable pub accepted : List Request → List AuditEntry
unfolding lookup
accepted [] = []
accepted (q ∷ qs) =
    let rest = accepted qs in
    elim (q.nodes.config_set q.change.node_addr q.change.key q.change.value) [
      | some e ↦ rest
      | none ↦ written q ∷ rest
    ]

entry_of-written : (q : Request) → entry_of q.nodes q.now q.change ≡ written q
unfolding entry_of fetch_config_key lookup_str lookup
entry_of-written q =
    ap
      (λ v. record {
        timestamp = q.now;
        node_addr = q.change.node_addr;
        key = q.change.key;
        old_value = v;
        new_value = q.change.value;
        remote_ip = q.change.remote_ip;
      })
      (old_value (q.nodes.config_get q.change.node_addr q.change.key))
  where
    old_value :
        (r : Result (Dict Str))
        → old_value_of (elim r [
          | err e ↦ err (wrap (str "CONFIG GET " ++ q.change.key) e)
          | ok vals ↦ ok (lookup_str q.change.key vals)
        ])
          ≡ value_before q.change.key r
    old_value (err e) = refl
    old_value (ok vals) = unfold lookup_str in refl

serve_all-record_all :
    (log : List AuditEntry) (qs : List Request) → serve_all log qs ≡ record_all log (accepted qs)
unfolding serve_all accepted record_all
serve_all-record_all log [] = refl
serve_all-record_all log (q ∷ qs) =
    elim (q.nodes.config_set q.change.node_addr q.change.key q.change.value)
      as (λ s.
        serve_all
          (elim s as (λ x. Option Err × List AuditEntry) [
            | some e ↦ (some (wrap (str "CONFIG SET") e), log)
            | none ↦ (none, record_entry log (entry_of q.nodes q.now q.change))
          ]).1
          qs
        ≡ record_all log (elim s [ some e ↦ accepted qs | none ↦ written q ∷ accepted qs ])) [
          | some e ↦ serve_all-record_all log qs
          | none ↦
              serve_all-record_all (record_entry log (entry_of q.nodes q.now q.change)) qs
              ∙ ap (λ e. record_all log (e ∷ accepted qs)) (entry_of-written q)
        ]

-- After any requests the audit log holds the last 500 changes that a node accepted, in order, each
-- with the old value that CONFIG GET gave, or "<unknown>" where it failed: a change that the node
-- refused is not in it.
pub serve_all-last : (qs : List Request) → serve_all new_audit_log qs ≡ last 500 (accepted qs)
serve_all-last qs = serve_all-record_all new_audit_log qs ∙ record_all-last (accepted qs)
