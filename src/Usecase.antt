-- ===== src/Usecase.antt =====
-- internal/application/usecase: the use cases, as actions on the database that other transactions
-- change between any two statements.
pub mod Monad
pub mod Idempotency
pub mod Outcomes
pub mod Retry
pub mod Process
pub mod Replay
pub mod Resume
pub mod Worker
pub mod Retries
pub mod OpenWallet
pub mod Reconcile
