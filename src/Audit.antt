-- ===== src/Audit.antt =====
-- app/audit.py: every audit function appends one event to the log. The logger that prints the
-- events is not modelled.
pub mod Quiet
use test_cusa.Prelude.{String, Option, ◌∷◌}
use test_cusa.Prelude.Int.{ℤ}
use test_cusa.Runtime.{
  Env, Action, AuditMetadata, secret_version, versions, rejection, ◌>>=◌, modify_io, time,
}

module _ {Amount : Type 0} (env : Env Amount) {C : Type 0} where
  unfoldable pub audit_event :
      (event actor resource action outcome : String) → AuditMetadata → Action C (Unit {0})
  audit_event event actor resource action outcome metadata = do
    now ← time env
    modify_io λ w. record w {
      audit =
          record {
            event = event;
            actor = actor;
            resource = resource;
            action = action;
            outcome = outcome;
            metadata = metadata;
            audit_timestamp = now;
          }
          ∷ w.audit;
    }

  unfoldable pub audit_credential_access :
      (secret_path : String) → Option ℤ → (outcome : String) → Action C (Unit {0})
  unfolding audit_event
  audit_credential_access secret_path version outcome =
      audit_event "credential_access" "credential_manager" secret_path "read" outcome
        (secret_version version)

  unfoldable pub audit_rotation_event :
      (secret_path : String) → Option ℤ → Option ℤ → (outcome : String) → Action C (Unit {0})
  unfolding audit_event
  audit_rotation_event secret_path old_version new_version outcome =
      audit_event "credential_rotation" "credential_manager" secret_path "rotate" outcome
        (versions old_version new_version)

  unfoldable pub audit_auth_failure :
      (resource reason : String) → Option String → Action C (Unit {0})
  unfolding audit_event
  audit_auth_failure resource reason request_id =
      audit_event "auth_failure" "unknown" resource "authenticate" "failure"
        (rejection reason request_id)

  unfoldable pub audit_health_check : (outcome : String) → AuditMetadata → Action C (Unit {0})
  unfolding audit_event
  audit_health_check outcome details =
      audit_event "health_check" "system" "service" "health_check" outcome details
