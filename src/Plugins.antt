-- ===== src/Plugins.antt =====
-- src/quads/plugins: how plugins are loaded, chosen and called, and the workflows of two built-in ones, the release
-- of hosts and the validation of environments.
pub mod Manager
pub mod Dispatchers
pub mod Switch
pub mod Release
pub mod Validation
