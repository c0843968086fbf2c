-- ===== src/Api/Schedules.antt =====
-- src/quads/server/blueprints/schedules.py
pub mod Window
pub mod Create
pub mod Batch
pub mod Update
pub mod Delete
pub mod Current
