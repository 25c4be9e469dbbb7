-- ===== src/Vault/Retry.antt =====
-- The retry loop of `read_secret` in app/vault_client.py: what it returns, how often it asks, how
-- long it waits, and what it audits.
use native.Mathlib.Nat.{zero-add}
use test_cusa.Prelude.{
  ℕ, suc, ◌+◌, ◌-◌, ◌*◌, ◌^◌, ◌≤◌, ◌≡◌, String, Option, none, List, [], ◌∷◌, arith, ltb, Bool-cases,
  inl, inr, if◌then◌else◌,
}
use test_cusa.Prelude.Int.{ℤ}
use test_cusa.Runtime.{Env, Action, Io, Exn, Result, ok, raise, AuditEvent, secret_version}
use test_cusa.Config.{Settings, or_default}
use test_cusa.Audit.{audit_credential_access}
use test_cusa.Vault.Client.{
  VaultClient, SecretData, verdict, attempt_read, attempts, read_secret, get_client, conclude,
  max_retries, initial_backoff,
}

-- One attempt audits nothing and waits for nothing, and asks Vault at most once.
record Quiet (w w' : Io) : Type 0 where
  same_audit : w'.audit ≡ w.audit
  same_sleeps : w'.sleeps ≡ w.sleeps
  one_read : w'.kv_reads ≤ w.kv_reads + 1

abbrev pub sum : List ℕ → ℕ
sum [] = 0
sum (x ∷ xs) = x + sum xs

abbrev pub outcome_of : Result SecretData → String
outcome_of (ok s) = "success"
outcome_of (raise e) = "failure"

abbrev pub version_of : Result SecretData → Option ℤ
version_of (ok s) = s.version
version_of (raise e) = none

-- The exceptions that `read_secret` documents.
abbrev pub Documented : Result SecretData → Type 0
Documented (ok s) = Unit
Documented (raise Exn.vault_connection_error) = Unit
Documented (raise Exn.vault_auth_error) = Unit
Documented (raise Exn.vault_secret_not_found_error) = Unit
Documented (raise _) = ⊥

-- One event came on top of the log.
abbrev pub Audited : (path outcome : String) → Option ℤ → (before after : List AuditEvent) → Type 0
Audited path outcome version before [] = ⊥
Audited path outcome version before (e ∷ after) =
    (after ≡ before)
    × (e.event ≡ "credential_access")
    × (e.resource ≡ path)
    × (e.outcome ≡ outcome)
    × (e.metadata ≡ secret_version version)

-- What a call that began at `w` did with `n` attempts: at most `n` requests and `wait` microseconds
-- of waiting, and one audit event, which agrees with the result.
pub record Reports (path : String) (n wait : ℕ) (w : Io) (r : Result SecretData) (w' : Io)
    : Type 0 where
  pub reads : w'.kv_reads ≤ w.kv_reads + n
  pub waits : sum w'.sleeps ≤ sum w.sleeps + wait
  pub audited : Audited path (outcome_of r) (version_of r) w.audit w'.audit
  pub documented : Documented r

module _ {Amount : Type 0} (env : Env Amount) (path : String) where
  get_client-Quiet :
      (v : VaultClient) (w : Io)
      → let (_, _, w') = get_client env v w in
        (w'.audit ≡ w.audit) × (w'.sleeps ≡ w.sleeps) × (w'.kv_reads ≡ w.kv_reads)
  unfolding get_client
  get_client-Quiet v w = ground arith

  attempt_read-Quiet : (v : VaultClient) (w : Io) → Quiet w (attempt_read env path v w).2
  unfolding attempt_read
  attempt_read-Quiet v w = ground (arith, get_client-Quiet v w)

  -- The wait behind an attempt that leaves `left` more.
  abbrev wait_after : ℕ → ℕ
  wait_after left =
      if ltb (max_retries - left) max_retries
      then initial_backoff * 2 ^ (max_retries - left - 1)
      else 0

  -- A call with `n` attempts, from any state.
  abbrev Reporting : (n wait : ℕ) → Action VaultClient SecretData → Type 0
  Reporting n wait act =
      (v : VaultClient) (w : Io) → let (r, _, w') = act v w in Reports path n wait w r w'

  attempts_zero : Reporting 0 0 (attempts env path 0)
  unfolding attempts audit_credential_access
  attempts_zero v w = ground arith

  Reports-slept :
      (n wait pause : ℕ) (r : Result SecretData) (w w' : Io)
      → Reports path n wait (record w { sleeps = pause ∷ w.sleeps }) r w'
      → Reports path n (pause + wait) w r w'
  Reports-slept n wait pause r w w' h = record {
    reads = h.reads;
    waits = omega arith;
    audited = h.audited;
    documented = h.documented;
  }

  conclude-Reports :
      (left wait : ℕ) (retry : Action VaultClient SecretData)
      → Reporting left wait retry
      → (r : Result SecretData)
      → Reporting left (wait_after left + wait) (conclude env path left retry (verdict r))
  unfolding conclude verdict audit_credential_access
  conclude-Reports left wait retry later (ok s) v w = ground arith
  conclude-Reports left wait retry later (raise Exn.vault_auth_error) v w = ground arith
  conclude-Reports left wait retry later (raise Exn.vault_secret_not_found_error) v w = ground arith
  conclude-Reports left wait retry later (raise e) v w =
      let pause = initial_backoff * 2 ^ (max_retries - left - 1) in
      let w' = record w { sleeps = pause ∷ w.sleeps } in
      elim (Bool-cases (ltb (max_retries - left) max_retries)) [
        | inl more ↦
            rw more (Reports-slept left wait pause (retry v w').0 w (retry v w').2 (later v w'))
        | inr last ↦ rw (last, zero-add) (later v w)
      ]

  -- An attempt in front of a call.
  Reports-after :
      (n wait : ℕ) (r : Result SecretData) (w w' w'' : Io)
      → Quiet w w'
      → Reports path n wait w' r w''
      → Reports path (suc n) wait w r w''
  Reports-after n wait r w w' w'' q h = record {
    reads = omega (arith, q.one_read);
    waits = rw (← q.same_sleeps) h.waits;
    audited = rw (← q.same_audit) h.audited;
    documented = h.documented;
  }

  attempts-suc :
      (left wait : ℕ)
      → Reporting left wait (attempts env path left)
      → Reporting (suc left) (wait_after left + wait) (attempts env path (suc left))
  unfolding attempts
  attempts-suc left wait later v w =
      let (r, v', w') = attempt_read env path v w in
      let retry = attempts env path left in
      let (r', _, w'') = conclude env path left retry (verdict r) v' w' in
      Reports-after left (wait_after left + wait) r' w w' w'' (attempt_read-Quiet v w)
        (conclude-Reports left wait retry later r v' w')

-- Whatever Vault answers, `read_secret` returns a secret or raises one of the three exceptions that
-- it documents; it asks Vault at most three times, waits at most 1.5 seconds in all, and leaves
-- exactly one audit event: of the path, and a success with the secret's version exactly when it
-- returns one.
pub read_secret-Reports :
    {Amount : Type 0} (env : Env Amount) (settings : Settings) (path : Option String)
    (v : VaultClient) (w : Io)
    → let (r, _, w') = read_secret env settings path v w in
      Reports (or_default path settings.vault_secret_path) 3 1_500_000 w r w'
unfolding read_secret
read_secret-Reports env settings path =
    let p = or_default path settings.vault_secret_path in
    attempts-suc env p 2 1_000_000
      (attempts-suc env p 1 0 (attempts-suc env p 0 0 (attempts_zero env p)))
