-- ===== src/Runtime.antt =====
-- What the service's code runs on: exceptions, the outside world, and actions on a component's
-- state. Time is a signed count of microseconds. `Env` answers the calls of code outside the
-- repository (clock, random ids, hvac, httpx, the token file); each answer may depend on how many
-- calls of its kind came before, so it may differ from call to call.
mod External
mod Monad
pub mod Convert
pub mod Keeps
pub mod Blind
pub mod Raises
pub mod Quiet
pub mod Text
pub mod Binds
pub use External.*
pub use Monad.*
