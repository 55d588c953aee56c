-- ===== src/Operations/Audit.antt =====
-- internal/operations/audit.go: the audit log, a buffer of the last changes.
use redis_admin.Base.{ℕ, ◌≡◌, refl, ◌∙◌, List, [], ◌∷◌, Str}
use redis_admin.Ring.{push_bounded, push_all, push_all-last, last}

-- auditRingMax
abbrev pub audit_ring_max : ℕ
audit_ring_max = 500

pub record AuditEntry : Type 0 where
  pub timestamp : ℕ
  pub node_addr : Str
  pub key : Str
  pub old_value : Str
  pub new_value : Str
  pub remote_ip : Str

-- newAuditLog
abbrev pub new_audit_log : List AuditEntry
new_audit_log = []

-- record
unfoldable pub record_entry : List AuditEntry → AuditEntry → List AuditEntry
unfolding push_bounded
record_entry log e = push_bounded audit_ring_max log e

unfoldable pub record_all : List AuditEntry → List AuditEntry → List AuditEntry
unfolding record_entry
record_all log [] = log
record_all log (e ∷ es) = record_all (record_entry log e) es

record_all-push_all :
    (log es : List AuditEntry) → record_all log es ≡ push_all audit_ring_max log es
unfolding record_all push_all
record_all-push_all log [] = refl
record_all-push_all log (e ∷ es) = record_all-push_all (record_entry log e) es

-- Whatever is recorded, from the start on, list returns the last 500 entries in the order in which
-- they were recorded, and all of them while there are no more than 500.
pub record_all-last : (es : List AuditEntry) → record_all new_audit_log es ≡ last audit_ring_max es
record_all-last es = record_all-push_all [] es ∙ push_all-last audit_ring_max [] es
