-- ===== src/World.antt =====
-- What the services share at run time: Go's error values, the rows of the database, the clock, and the
-- calls of the database driver, which may take time and may fail.
pub mod Errors
pub mod Rows
pub mod Laws
pub mod Silent
pub mod Fixed
pub mod Forward
mod Effects
unfoldable pub use Effects.*
