-- ===== src/Dao.antt =====
-- src/quads/server/dao: the queries and updates on the tables.
pub mod Cloud
pub mod Host
pub mod Vlan
pub mod Notification
pub mod Assignment
pub mod Schedule
