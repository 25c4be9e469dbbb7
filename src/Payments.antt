-- ===== src/Payments.antt =====
-- `authorize_payment` of app/main.py and its helpers. `Handler` holds the endpoint, in the phases
-- before, at and after the call of the gateway; the rest are proofs.
pub mod Handler
pub mod InFlight
pub mod Access
pub mod Quiet
pub mod Errors
pub mod Replay
pub mod Tasks
pub mod Calls
pub mod Alone
pub mod Schedule
pub mod Granted
pub mod Effects
pub mod Sequence
