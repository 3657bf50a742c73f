-- ===== src/Frame.antt =====
-- Frames of calls and creations: src/call_create_frame.
pub mod World
pub mod Program
pub mod Context
pub mod Types
pub mod Exec
pub mod Run
pub mod Stack
pub mod Acts
pub mod Nested
pub mod Closing
pub mod Atomic
pub mod Terminates
pub mod Answers
pub mod Tests
