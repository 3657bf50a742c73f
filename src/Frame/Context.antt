-- ===== src/Frame/Context.antt =====
-- The context that a frame gives to what it executes: `impl ContextTrait for Context` in
-- src/call_create_frame/context.rs, `contract_address` of frame.rs, `suicide` of
-- src/internal_contract/impls/admin.rs and the methods of InternalRefContext. The observer, which
-- only records, is left out.
mod Basics
mod Accounts
mod Calls
mod Answer
unfoldable pub use Basics.*
unfoldable pub use Accounts.*
unfoldable pub use Calls.*
unfoldable pub use Answer.*
