-- ===== src/Postgres.antt =====
-- internal/infra/postgres and migrations: the tables, and each repository method as a function of
-- the tables that its SQL statement reads or writes.
mod Tables
mod Wallets
mod Transactions
mod Pending
mod Entries
pub mod Pages
mod Outbox
mod Inbox
pub mod Queries
pub mod Rows
pub mod Leases
unfoldable pub use Tables.*
unfoldable pub use Queries.*
unfoldable pub use Wallets.*
unfoldable pub use Transactions.*
unfoldable pub use Pending.*
unfoldable pub use Entries.*
unfoldable pub use Pages.*
unfoldable pub use Outbox.*
unfoldable pub use Inbox.*
