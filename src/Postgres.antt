-- ===== src/Postgres.antt =====
-- internal/repository/postgres: the repositories over the tables, one module for each.
pub mod Db
pub mod Users
pub mod Checks
pub mod Runs
pub mod Tokens
pub mod Notifications
pub mod Outbox
pub mod Transactor
