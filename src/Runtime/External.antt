-- ===== src/Runtime/External.antt =====
-- The values that cross the service's boundary, and the outside world as a parameter.
use test_cusa.Prelude.{ℕ, String, Bool, Option, List}
use test_cusa.Prelude.Int.{ℤ}

-- A value of a parsed JSON document, as far as the code looks at it: it tests a list or a dict
-- only for being empty. A number with a fraction does not occur in what the code converts.
pub data Value : Type 0 where
  null : Value
  boolean : Bool → Value
  number : ℤ → Value
  text : String → Value
  compound : (nonempty : Bool) → Value

-- A Python dict with text keys, read by `.get`.
abbrev pub Dict : Type 0
Dict = List (String × Value)

-- What `d.get(name, {})` finds where the code goes on to call `.get` on it.
pub data Field (A : Type 0) : Type 0 where
  absent : Field A
  not_a_dict : Field A
  given : A → Field A

-- `metadata` of a KV v2 response; its version is an int.
pub record Metadata : Type 0 where
  pub version : Option ℤ
  pub created_time : Option String

-- The payload is handed on unread, so it need not be a dict.
pub data Payload : Type 0 where
  opaque : Payload
  dict : Dict → Payload

-- `response["data"]`
pub record Wrapper : Type 0 where
  pub payload : Option Payload
  pub metadata : Field Metadata

-- What `client.secrets.kv.v2.read_secret_version` does.
pub data KvReply : Type 0 where
  response : Field Wrapper → KvReply
  nothing : KvReply
  invalid_path : KvReply
  forbidden : KvReply
  vault_error : KvReply
  failed : KvReply

-- Reading the service account's token file.
pub data TokenFile : Type 0 where
  contents : String → TokenFile
  not_found : TokenFile
  unreadable : TokenFile

-- What `client.auth.kubernetes.login` does.
pub data LoginReply : Type 0 where
  logged_in : LoginReply
  refused : LoginReply
  crashed : LoginReply

-- An authenticated `hvac.Client`: with a fixed token, or from a login (counted).
pub data HvacClient : Type 0 where
  token_client : String → String → HvacClient
  session_client : String → ℕ → HvacClient

-- The body of a gateway's answer, by what `dict` makes of its JSON: a dictionary, from an object or
-- from an empty list or text; a `ValueError`, also where the body is no JSON; or a `TypeError`, from a
-- number, a truth value or null.
pub data Body : Type 0 where
  object : Dict → Body
  no_object : Body
  scalar : Body

-- What `client.post` or `client.get` of httpx does.
pub data HttpReply : Type 0 where
  answer : (status_code : ℕ) → Body → HttpReply
  timed_out : HttpReply
  http_error : HttpReply
  broken : HttpReply

pub record PostRequest (Amount : Type 0) : Type 0 where
  pub url : String
  pub api_key : Value
  pub api_secret : Value
  pub merchant_id : String
  pub amount : Amount
  pub currency : String
  pub card_token : String
  pub idempotency_key : String

-- The answers of the outside world, by the number of earlier calls of the kind.
pub record Env (Amount : Type 0) : Type 0 where
  pub clock : ℕ → ℤ
  pub uuid4 : ℕ → String
  pub token_file : ℕ → TokenFile
  pub login : ℕ → (role jwt : String) → LoginReply
  pub is_authenticated : ℕ → HvacClient → Option Bool
  pub kv_read : ℕ → HvacClient → (mount_point path : String) → KvReply
  pub post : ℕ → PostRequest Amount → HttpReply
  pub get : ℕ → (url : String) → HttpReply
