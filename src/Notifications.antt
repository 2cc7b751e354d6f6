-- ===== src/Notifications.antt =====
-- svc-forum/src/lib/data-access/notification-store.ts: materialized notifications.
pub mod Facts
pub mod Inbox
