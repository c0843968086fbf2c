-- ===== src/Api/Assignments.antt =====
-- src/quads/server/blueprints/assignments.py
pub mod Create
pub mod Self
pub mod Terminate
