-- ===== src/State.antt =====
-- The world state: src/state/mod.rs and src/state/account_entry.rs.
mod Account
mod Types
mod Monad
mod Load
mod Ops
mod Checkpoint
mod New
mod Commit
pub mod Reads
pub mod View
pub mod Seen
pub mod Undo
pub mod Step
pub mod Saves
pub mod Loads
pub mod Writes
pub mod Methods
pub mod Frames
pub mod Storage
unfoldable pub use Account.*
pub use Types.*
pub use Monad.*
unfoldable pub use Load.*
unfoldable pub use Ops.*
unfoldable pub use Checkpoint.*
unfoldable pub use New.*
unfoldable pub use Commit.*
