-- ===== src/Vault/Quiet.antt =====
-- What asking Vault for the token's validity writes to the audit log in app/vault_client.py:
-- nothing.
use test_cusa.Prelude.{suc, arith, ◌≡◌, refl, some, List, Bool}
use test_cusa.Runtime.{
  Env, AuditEvent, Io, ok, raise, Result, ◌>>=◌, ◌>>◌, modify, pure, HvacClient, TokenFile,
  contents, not_found, unreadable, LoginReply, logged_in, refused, crashed,
}
use test_cusa.Runtime.Quiet.{Quiet, Quiet-bind, Quiet-throw}
use test_cusa.Vault.Client.{
  VaultClient, session, kubernetes_login, login_with, read_token_file, create_client, get_client,
  ask_authenticated, or_false, is_authenticated,
}

or_false_lem :
    {N Amount : Type 0} (env : Env Amount) (f : List AuditEvent → N)
    (r : Result Bool × VaultClient × Io) (before : N)
    → f r.2.audit ≡ before
    → f (or_false env r).2.audit ≡ before
or_false_lem env f (ok b, v, w) before kept = kept
or_false_lem env f (raise e, v, w) before kept = kept

module _ {N : Type 0} {f : List AuditEvent → N} where
  session-Quiet : (reply : LoginReply) → Quiet f (session reply)
  unfolding session
  session-Quiet logged_in = record { at = λ v w. refl }
  session-Quiet refused = record { at = λ v w. refl }
  session-Quiet crashed = record { at = λ v w. refl }

  module _ {Amount : Type 0} (env : Env Amount) where
    login_with-Quiet : (file : TokenFile) → Quiet f (login_with env file)
    unfolding login_with kubernetes_login
    login_with-Quiet (contents jwt) = record {
      at = λ v w.
          (session-Quiet (env.login w.logins v.role jwt)).at v (record w { logins = suc w.logins });
    }
    login_with-Quiet not_found = Quiet-throw _
    login_with-Quiet unreadable = Quiet-throw _

    from_file-Quiet : Quiet f (do file ← read_token_file env; login_with env file)
    unfolding read_token_file
    from_file-Quiet = record {
      at = λ v w.
          (login_with-Quiet (env.token_file w.token_reads)).at v
            (record w { token_reads = suc w.token_reads });
    }

    create_client-Quiet : Quiet f (create_client env)
    unfolding create_client
    create_client-Quiet = record { at = λ v w. ground (arith, from_file-Quiet.at v w) }

    keep-Quiet :
        (c : HvacClient)
        → Quiet {C = VaultClient} f (modify (λ v. record v { client = some c }) >> pure c)
    keep-Quiet c = record { at = λ v w. refl }

    get_client-Quiet : Quiet f (get_client env)
    unfolding get_client
    get_client-Quiet = record {
      at = λ v w. ground (arith, (Quiet-bind _ _ create_client-Quiet λ c. keep-Quiet c).at v w);
    }

    ask_authenticated-Quiet : (c : HvacClient) → Quiet f (ask_authenticated env c)
    unfolding ask_authenticated
    ask_authenticated-Quiet c = record { at = λ v w. ground arith }

    pub is_authenticated-Quiet : Quiet f (is_authenticated env)
    unfolding is_authenticated
    is_authenticated-Quiet = record {
      at = λ v w.
          or_false_lem env f _ (f w.audit)
            ((Quiet-bind _ _ get_client-Quiet ask_authenticated-Quiet).at v w);
    }
