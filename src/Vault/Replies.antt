-- ===== src/Vault/Replies.antt =====
-- The retry loop of `read_secret` in app/vault_client.py and the replies that it gets: its result as a
-- function of them.
use test_cusa.Prelude.{
  ℕ, zero, suc, ◌-◌, ◌*◌, ◌^◌, ◌≡◌, ◌∙◌, refl, ap, String, Option, some, List, [], ◌∷◌, arith, ltb,
  Bool-cases, inl, inr,
}
use test_cusa.Runtime.{Env, Action, Io, Exn, Result, ok, raise, KvReply, HvacClient}
use test_cusa.Config.{Settings, or_default}
use test_cusa.Audit.{audit_credential_access}
use test_cusa.Vault.Path.{parse_kv2_path}
use test_cusa.Vault.Client.{
  VaultClient, SecretData, Verdict, verdict, kv2_outcome, parse_response, attempt_read, attempts,
  read_secret, get_client, conclude, max_retries, initial_backoff,
}

-- What one reply of Vault means for the loop.
unfoldable pub judge : KvReply → Verdict
unfolding verdict kv2_outcome parse_response
judge reply = verdict (elim (kv2_outcome reply) [ ok d ↦ parse_response d | raise e ↦ raise e ])

-- The result of a series of replies: the first that is a secret or a fatal error decides, and a
-- series of transient failures is a connection error.
unfoldable pub decide : List Verdict → Result SecretData
decide [] = raise Exn.vault_connection_error
decide (Verdict.finished s ∷ later) = ok s
decide (Verdict.fatal e ∷ later) = raise e
decide (Verdict.transient ∷ later) = decide later

module _ {Amount : Type 0} (env : Env Amount) (path : String) (c : HvacClient) where
  -- The replies that `n` attempts see after `k` earlier ones, with an authenticated client.
  unfoldable pub replies : (n k : ℕ) → List Verdict
  replies zero k = []
  replies (suc n) k =
      let (mount, sub) = parse_kv2_path path in
      judge (env.kv_read k c mount sub) ∷ replies n (suc k)

  attempt_read_lem :
      (v : VaultClient) (w : Io)
      → v.client ≡ some c
      → let (r, v', w') = attempt_read env path v w in
        let (mount, sub) = parse_kv2_path path in
        (verdict r ≡ judge (env.kv_read w.kv_reads c mount sub))
        × (v' ≡ v)
        × (w' ≡ record w { kv_reads = suc w.kv_reads })
  unfolding attempt_read judge get_client
  attempt_read_lem v w h = ground arith

  conclude-decide :
      (left : ℕ) (retry : Action VaultClient SecretData) (rest : ℕ → List Verdict)
      → ((v : VaultClient) (w : Io) → v.client ≡ some c → (retry v w).0 ≡ decide (rest w.kv_reads))
      → (o : Verdict) (v : VaultClient) (w : Io) → v.client ≡ some c
      → (conclude env path left retry o v w).0 ≡ decide (o ∷ rest w.kv_reads)
  unfolding conclude decide audit_credential_access
  conclude-decide left retry rest later (Verdict.finished s) v w h = refl
  conclude-decide left retry rest later (Verdict.fatal e) v w h = refl
  conclude-decide left retry rest later Verdict.transient v w h =
      let pause = initial_backoff * 2 ^ (max_retries - left - 1) in
      elim (Bool-cases (ltb (max_retries - left) max_retries)) [
        | inl more ↦ rw more (later v (record w { sleeps = pause ∷ w.sleeps }) h)
        | inr last ↦ rw last (later v w h)
      ]

  attempts-decide :
      (n : ℕ) (v : VaultClient) (w : Io)
      → v.client ≡ some c
      → (attempts env path n v w).0 ≡ decide (replies n w.kv_reads)
  unfolding attempts replies
  attempts-decide zero v w h = unfold decide audit_credential_access in refl
  attempts-decide (suc n) v w h =
      let (r, v', w') = attempt_read env path v w in
      let (same_verdict, same_client, one_read) = attempt_read_lem v w h in
      conclude-decide n (attempts env path n) (replies n) (attempts-decide n) (verdict r) v' w'
        (ap (λ x. x.client) same_client ∙ h)
      ∙ ap (λ o. decide (o ∷ replies n w'.kv_reads)) same_verdict
      ∙ ap
          (λ (x : Io).
            let (mount, sub) = parse_kv2_path path in
            decide (judge (env.kv_read w.kv_reads c mount sub) ∷ replies n x.kv_reads))
          one_read

-- With an authenticated client, the result of `read_secret` is that of the first of Vault's next
-- three replies which is a secret or a fatal error, and a connection error if all three fail in
-- passing.
pub read_secret-decide :
    {Amount : Type 0} (env : Env Amount) (settings : Settings) (path : Option String)
    (c : HvacClient) (v : VaultClient) (w : Io)
    → v.client ≡ some c
    → (read_secret env settings path v w).0
      ≡ decide (replies env (or_default path settings.vault_secret_path) c 3 w.kv_reads)
unfolding read_secret
read_secret-decide env settings path c v w h =
    attempts-decide env (or_default path settings.vault_secret_path) c 3 v w h
