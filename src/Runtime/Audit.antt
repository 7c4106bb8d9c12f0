-- ===== src/Runtime/Audit.antt =====
-- agreements/audit.ts: entries of the audit log, which is only appended.
use clickwrap.Prelude.{ℕ, String, Option, [], ◌∷◌, ◌++◌}
use clickwrap.Domain.Types.{AdminAuditAction, AdminAuditLog, Metadata}
use clickwrap.Runtime.Shared.{Env}
use clickwrap.Runtime.Exec.{Exec, modify, ◌>>=◌, now, new_id}

unfoldable pub append_audit : AdminAuditLog → Exec (Unit {0})
append_audit entry = modify (λ w. record w { audit = w.audit ++ entry ∷ [] })

abbrev pub audit_entry :
    AdminAuditAction
    → (actor target_type target_id : String) → Option String
    → Option Metadata
    → String
    → ℕ
    → AdminAuditLog
audit_entry action actor target_type target_id reason metadata id at = record {
  id = id;
  action = action;
  actor = actor;
  target_type = target_type;
  target_id = target_id;
  reason = reason;
  metadata = metadata;
  created_at = at;
}

-- `audit.append({ id: newId('audit'), …, createdAt: this.clock.now() })`
unfoldable pub audit_now :
    Env
    → AdminAuditAction
    → (actor target_type target_id : String) → Option String
    → Option Metadata
    → Exec (Unit {0})
unfolding append_audit now new_id
audit_now env action actor target_type target_id reason metadata = do
  id ← new_id env "audit"
  at ← now env
  append_audit (audit_entry action actor target_type target_id reason metadata id at)
