-- ===== src/Tests/World.antt =====
-- An outside world for the tests: a clock that ticks once a second from the 1000th second on, and a
-- Vault that holds version 7.
use test_cusa.Prelude.{ℕ, ◌+◌, ◌*◌, true, some, [], ◌∷◌}
use test_cusa.Prelude.Int.{ℤ, pos}
use test_cusa.Runtime.{
  Env, Io, Value, Dict, Field, Metadata, Payload, Wrapper, KvReply, TokenFile, LoginReply,
  HttpReply, Body, HvacClient, token_client,
}
use test_cusa.Vault.Client.{VaultClient}

abbrev pub at_second : ℕ → ℤ
at_second n = pos (n * 1_000_000)

abbrev pub secret_dict : Dict
secret_dict = ("api_key", Value.text "key-7") ∷ ("api_secret", Value.text "secret-7") ∷ []

abbrev pub metadata : Metadata
metadata = record { version = some (pos 7); created_time = some "2024-01-01" }

abbrev pub wrapper : Wrapper
wrapper = record { payload = some (Payload.dict secret_dict); metadata = Field.given metadata }

abbrev pub approval : HttpReply
approval =
    HttpReply.answer 200 (
      Body.object (("transaction_id", Value.text "txn-1") ∷ ("status", Value.text "approved") ∷ []))

abbrev pub env : Env ℕ
env = record {
  clock = λ n. at_second (1000 + n);
  uuid4 = λ n. "uuid";
  token_file = λ n. TokenFile.not_found;
  login = λ n role jwt. LoginReply.refused;
  is_authenticated = λ n c. some true;
  kv_read = λ n c mount path. KvReply.response (Field.given wrapper);
  post = λ n request. approval;
  get = λ n url. HttpReply.answer 200 Body.no_object;
}

-- A Vault that fails in passing.
abbrev pub failing : Env ℕ
failing = record env { kv_read = λ n c mount path. KvReply.vault_error }

abbrev pub io : Io
io = record {
  clock_reads = 0;
  uuids = 0;
  token_reads = 0;
  logins = 0;
  auth_checks = 0;
  kv_reads = 0;
  posts = 0;
  gets = 0;
  audit = [];
  sleeps = [];
}

abbrev pub hvac_client : HvacClient
hvac_client = token_client "http://vault" "root"

abbrev pub vault : VaultClient
vault = record {
  addr = "http://vault";
  auth_method = "token";
  role = "role";
  token = "root";
  client = some hvac_client;
}
