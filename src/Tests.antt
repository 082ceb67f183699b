-- ===== src/Tests.antt =====
-- Runs of the models, and the theorems at concrete inputs.
pub mod Texts
pub mod Messages
pub mod Commands
pub mod Loading
pub mod Threading
pub mod Directory
pub mod Serving
pub mod Typing
pub mod Twice
pub mod Handles
pub mod Sending
