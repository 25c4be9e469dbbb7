-- ===== src/Lib.antt =====
-- The payment gateway connector, a FastAPI service under services/payment-gateway-connector/app
-- that authorizes payments against an external gateway with credentials it keeps fresh from Vault, and
-- the simulated gateway that it is run against, services/vaultgateway-mock/app.
--
-- Parts, and the files that model them (the Python files are those of the service, unless
-- the simulated gateway is named):
--
-- - Prelude: names of the library, Boolean tests on native numbers, integers, texts, lists.
-- - OrderedDict: `collections.OrderedDict` as an association list, oldest entry first: assignment,
--   `move_to_end`, and the loop that pops the oldest entry while the dictionary is too long.
-- - Runtime: `External` holds the values that cross the service's boundary and the record `Env` of
--   what the outside world does (clock, uuid, hvac, httpx), each a function of the number of earlier
--   calls; `Monad` has state, exceptions and the record `Io` of those numbers with the audit events
--   (newest first) and the sleeps; `Convert` has Python's truth value, `dict.get`,
--   `int` and `round`, `Text` has `split` and `join`; `Binds`, `Keeps`,
--   `Raises`, `Quiet` and `Blind` are about the monad.
-- - Audit: audit.py, its five event functions. Config: config.py.
-- - Vault: vault_client.py. `Path` is `_parse_kv2_path`, `Client` is the class with its retry loop.
-- - Credentials: credential_manager.py. `Status` is `Credential` with its age and status, `Manager`
--   and `Load` are the class, and `Refresh` its background loop, run on a list of what wakes it up.
-- - Breaker: `CircuitBreaker` of gateway_client.py; the clock's reading is an argument.
-- - Gateway: `GatewayClient` of gateway_client.py, one authorization with its two credentials.
--   `Phases` is the same method cut at its awaits: up to the first request, and from each reply on.
-- - RateLimit: `_TokenBucket` and the dictionary of buckets of middleware.py.
-- - Idempotency: `_check_idempotency` and `_store_idempotency` of main.py.
-- - Models: models.py, with `PaymentRequest`'s field checks.
-- - Payments: `authorize_payment` of main.py, with `_validate_api_key`. `Handler` is the model
--   of a call as a whole; `Tasks` cuts it at its awaits, and `Schedule` is the event loop: a step
--   relation on the globals and the tasks, by arrivals, replies of the gateway, refreshes, and
--   cancellations of a task that waits. `Sequence` runs requests that do not overlap.
-- - Health: `readiness` and the start in `lifespan` of main.py; `Shutdown` is what `lifespan` does
--   after its `yield`.
-- - Middleware: the three `dispatch` methods of middleware.py, as functions on a handler.
-- - Mock: main.py of the simulated gateway. `Keys` is `_get_valid_keys`, `Service` is
--   `authorize_transaction` with its models and counters, `Service/Rotation` runs the connector's
--   gateway client against it.
-- - Service: `app` of main.py, its routes behind the middlewares. The answers that FastAPI makes of a
--   result, and the check that a body is JSON of the right shape, are parameters (`Framework`).
--   `Rotation`, `Downtime` and `Outage` run the service against the simulated gateway.
--
-- The middlewares stand round the endpoint; the endpoint asks the credential manager for usable
-- credentials, then the idempotency cache, then the gateway client, which takes the credential
-- manager's current and fallback credential and consults the breaker; the manager reads its secret
-- from the Vault client, at the start and on each round of the refresh loop.
--
-- Python's objects are records that the operations return changed; no object is reached by two ways,
-- except the Vault client, which the credential manager holds and the readiness probe uses: the model
-- reaches it through the manager. Whether two credentials are one object is told by `identity`, a
-- number that each construction draws. The operations of `Handler` and
-- `Gateway` run from their start to their end with nothing between; `Tasks` and `Schedule` are for what
-- other requests do at the awaits. A task may be cancelled while it waits. The refresh loop waits for
-- Vault without an await, so a load is one step. The id in a request's state is an argument of the
-- endpoint.
--
-- Numbers: times are integers of microseconds where Python has floats, so that the arithmetic of the
-- token bucket and the timeouts is exact; tokens are counted in millionths. The amount of a payment
-- is a type parameter, since the service only hands it on. The retry loop recurses on the attempts
-- that are left, three at first, and the loop that shrinks a dictionary on the dictionary.
-- The loop of the shutdown runs on fuel, one unit for each test of its condition; ten units for each
-- second of the timeout and one more are enough, since each wait has its 0.1 seconds, and so are two
-- for each request in flight and one more while the gateway replies in every wait.
--
-- Not modelled: the text of the metrics endpoints, the constant answer of the simulated gateway's health
-- endpoint, `set_components`, which is for tests, logging that is not
-- audit, the reading of settings from the environment, and what HTTP does to a key with spaces at its
-- ends or with characters that a header cannot carry.
pub mod Prelude
pub mod OrderedDict
pub mod Runtime
pub mod Audit
pub mod Config
pub mod Vault
pub mod Credentials
pub mod Breaker
pub mod Gateway
pub mod RateLimit
pub mod Idempotency
pub mod Models
pub mod Payments
pub mod Health
pub mod Middleware
pub mod Mock
pub mod Service
mod Tests
