-- ===== src/Books.antt =====
-- The books balance: what every transaction of the program does to the wallets' balances and to
-- the sums of their ledgers, whatever other transactions commit in between.
pub mod Kept
pub mod Drift
pub mod Received
pub mod Writes
pub mod Inserts
pub mod Runs
pub mod Outcomes
pub mod Movements
pub mod Attempts
pub mod Execution
pub mod Resumption
pub mod Rounds
pub mod Opening
pub mod Reconciliation
