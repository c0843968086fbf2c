-- ===== src/Plugins/Release.antt =====
-- `StandardReleasePlugin` of src/quads/plugins/builtin/release/standard.py: how a host is moved and
-- rebuilt. The waits, the logging and the recorded times are left out, and one move runs alone.
pub mod Calls
pub mod Hardware
pub mod Rebuild
pub mod Seen
pub mod Hidden
pub mod Going
pub mod Parts
pub mod Ends
pub mod Completion
pub mod Moved
pub mod Credentials
pub mod Delivered
