-- ===== src/Vault/Outage.antt =====
-- `read_secret` of app/vault_client.py while Vault answers no read.
use test_cusa.Prelude.{
  ℕ, zero, suc, ◌-◌, ltb, Bool, true, false, Bool-cases, inl, inr, arith, String, Option, ◌≡◌,
}
use test_cusa.Runtime.{Env, Action, Io, Result, ok, raise, HvacClient, ◌>>=◌, lift}
use test_cusa.Runtime.Binds.{onward}
use test_cusa.Config.{Settings, or_default}
use test_cusa.Audit.{audit_credential_access}
use test_cusa.Vault.Path.{parse_kv2_path}
use test_cusa.Vault.Client.{
  VaultClient, SecretData, Verdict, verdict, kv2_outcome, parse_response, get_client, read_kv2,
  read_secret_version, attempt_read, attempts, read_secret, conclude, max_retries,
}

abbrev pub IsRaise : {A : Type 0} → Result A → Type 0
IsRaise (ok x) = ⊥
IsRaise (raise e) = Unit

-- Every read of Vault ends in an exception.
abbrev pub IsOut : {Amount : Type 0} → Env Amount → Type 0
IsOut env =
    (n : ℕ) (c : HvacClient) (mount path : String)
    → IsRaise (kv2_outcome (env.kv_read n c mount path))

-- An action that raises in the end.
raises_lem :
    {C A B : Type 0} (f : A → Action C B)
    → ((x : A) (c : C) (w : Io) → IsRaise (f x c w).0)
    → (out : Result A × C × Io) → IsRaise (onward f out).0
raises_lem f h (ok x, c, w) = h x c w
raises_lem f h (raise e, c, w) = tt

-- An action after one that raises.
onward-IsRaise :
    {C A B : Type 0} (f : A → Action C B) (out : Result A × C × Io)
    → IsRaise out.0
    → IsRaise (onward f out).0
onward-IsRaise f (ok x, c, w) h = absurd h
onward-IsRaise f (raise e, c, w) h = tt

abbrev is_finished : Verdict → Bool
is_finished (Verdict.finished s) = true
is_finished (Verdict.fatal e) = false
is_finished Verdict.transient = false

verdict_lem : (r : Result SecretData) → IsRaise r → is_finished (verdict r) ≡ false
unfolding verdict
verdict_lem (ok s) h = absurd h
verdict_lem (raise e) h = ground arith

module _ {Amount : Type 0} (env : Env Amount) (path : String) (out : IsOut env) where
  read_kv2-IsRaise : (v : VaultClient) (w : Io) → IsRaise (read_kv2 env path v w).0
  unfolding read_kv2 read_secret_version
  read_kv2-IsRaise v w =
      let (mount, sub) = parse_kv2_path path in
      raises_lem (λ c. read_secret_version env c mount sub >>= λ reply. lift (kv2_outcome reply))
        (λ c v' w'. out w'.kv_reads c mount sub) (get_client env v w)

  attempt_read-IsRaise : (v : VaultClient) (w : Io) → IsRaise (attempt_read env path v w).0
  unfolding attempt_read
  attempt_read-IsRaise v w =
      onward-IsRaise (λ reply. lift (parse_response reply)) (read_kv2 env path v w)
        (read_kv2-IsRaise v w)

  conclude-IsRaise :
      (left : ℕ) (retry : Action VaultClient SecretData) (o : Verdict) (v : VaultClient) (w : Io)
      → ((v' : VaultClient) (w' : Io) → IsRaise (retry v' w').0)
      → is_finished o ≡ false
      → IsRaise (conclude env path left retry o v w).0
  unfolding conclude audit_credential_access
  conclude-IsRaise left retry (Verdict.finished s) v w later h = absurd (ground (arith, h))
  conclude-IsRaise left retry (Verdict.fatal e) v w later h = tt
  conclude-IsRaise left retry Verdict.transient v w later h =
      elim (Bool-cases (ltb (max_retries - left) max_retries)) [
        | inl more ↦ rw more (later _ _)
        | inr last ↦ rw last (later _ _)
      ]

  attempts-IsRaise : (n : ℕ) (v : VaultClient) (w : Io) → IsRaise (attempts env path n v w).0
  unfolding attempts audit_credential_access
  attempts-IsRaise zero v w = tt
  attempts-IsRaise (suc n) v w =
      let (r, v', w') = attempt_read env path v w in
      conclude-IsRaise n (attempts env path n) (verdict r) v' w' (attempts-IsRaise n)
        (verdict_lem r (attempt_read-IsRaise v w))

-- While Vault answers no read, `read_secret` raises, whatever its client is.
pub read_secret-IsRaise :
    {Amount : Type 0} (env : Env Amount) (settings : Settings) (path : Option String)
    (v : VaultClient) (w : Io)
    → IsOut env
    → IsRaise (read_secret env settings path v w).0
unfolding read_secret
read_secret-IsRaise env settings path v w out =
    attempts-IsRaise env (or_default path settings.vault_secret_path) out max_retries v w
