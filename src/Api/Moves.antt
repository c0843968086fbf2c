-- ===== src/Api/Moves.antt =====
-- src/quads/server/blueprints/moves.py, with the parts of src/quads/server/dao/schedule.py that follow a move.
pub mod Progress
pub mod Needed
