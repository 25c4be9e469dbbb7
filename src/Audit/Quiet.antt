-- ===== src/Audit/Quiet.antt =====
-- Readings of the audit log that pass over events of one kind, with app/audit.py.
use test_cusa.Prelude.{◌≡◌, refl, String, Option, List, ◌∷◌}
use test_cusa.Runtime.{Env, AuditEvent, AuditMetadata}
use test_cusa.Runtime.Quiet.{Quiet}
use test_cusa.Audit.{audit_event, audit_auth_failure, audit_health_check}

pub record Ignores {N : Type 0} (f : List AuditEvent → N) (event : String) : Type 0 where
  pub at : (e : AuditEvent) (es : List AuditEvent) → e.event ≡ event → f (e ∷ es) ≡ f es

module _ {N C Amount : Type 0} {f : List AuditEvent → N} (env : Env Amount) where
  audit_event-Quiet :
      (event actor resource action outcome : String) (metadata : AuditMetadata)
      → Ignores f event
      → Quiet f (audit_event env {C = C} event actor resource action outcome metadata)
  unfolding audit_event
  audit_event-Quiet event actor resource action outcome metadata ignored = record {
    at = λ c w. ignored.at _ w.audit refl;
  }

  pub audit_auth_failure-Quiet :
      (resource reason : String) (request_id : Option String)
      → Ignores f "auth_failure"
      → Quiet f (audit_auth_failure env {C = C} resource reason request_id)
  unfolding audit_auth_failure
  audit_auth_failure-Quiet resource reason request_id = audit_event-Quiet _ _ _ _ _ _

  pub audit_health_check-Quiet :
      (outcome : String) (details : AuditMetadata)
      → Ignores f "health_check"
      → Quiet f (audit_health_check env {C = C} outcome details)
  unfolding audit_health_check
  audit_health_check-Quiet outcome details = audit_event-Quiet _ _ _ _ _ _
