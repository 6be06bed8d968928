-- ===== src/Examples.antt =====
-- Runs of the theorems on concrete inputs.
pub mod Inet
pub mod Errors
pub mod Net
pub mod Buffered
pub mod Sftp
pub mod Exact
pub mod Thread
pub mod Server
pub mod Threads
pub mod Main
pub mod Console
pub mod Window
