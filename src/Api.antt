-- ===== src/Api.antt =====
-- src/quads/server/blueprints: the request handlers.
pub mod Schedules
pub mod Assignments
pub mod Moves
pub mod Notifications
pub mod Serving
pub mod Access
pub mod Tokens
pub mod Login
pub mod Available
