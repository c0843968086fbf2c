-- ===== src/Tools.antt =====
-- src/quads/tools: the programs that run from time to time.
pub mod Notify
