-- ===== src/Alerts.antt =====
-- server/src/alerts.
pub mod Delay
pub mod Inbox
pub mod Scanner
pub mod Marks
