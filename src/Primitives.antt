-- ===== src/Primitives.antt =====
-- The data that the components share: spaces, addresses, accounts, their bytes and their keys.
mod Bytes
mod Defs
pub mod Keys
unfoldable pub use Bytes.*
unfoldable pub use Defs.*
