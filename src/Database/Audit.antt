-- ===== src/Database/Audit.antt =====
-- create_audit_log (src/services/audit_service.py): one more row, whatever happens. The except
-- clause, which swallows a failure of the insert, has no counterpart: the insert does not fail here.
use ai_detention.Prelude.{ℕ, String, Option, [], ◌∷◌, ◌++◌}
use ai_detention.Models.Account.{AuditAction, AuditLog}
use ai_detention.Database.Session.{Session}
use ai_detention.Errors.{ok}

abbrev pub create_audit_log :
    AuditAction → String → Option ℕ → Option ℕ → Option ℕ → String → Session (Unit {0})
create_audit_log action resource_type resource_id organization_id user_id status w =
    let entry : AuditLog = record {
      timestamp = w.now;
      action = action;
      resource_type = resource_type;
      resource_id = resource_id;
      organization_id = organization_id;
      user_id = user_id;
      status = status;
    } in
    (ok tt, record w { db = record w.db { audit_logs = w.db.audit_logs ++ entry ∷ [] } })
