-- ===== src/Tests.antt =====
-- Test data, evaluations on concrete inputs, and the theorems at inputs that meet their hypotheses.
mod World
mod VaultTests
mod CredentialTests
mod BreakerTests
mod CacheTests
mod PaymentTests
mod ScheduleTests
mod MockTests
mod ShutdownTests
mod ServiceTests
mod SequenceTests
mod RotationTests
