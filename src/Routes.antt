-- ===== src/Routes.antt =====
-- svc-forum/src/routes/: the request handlers. `authRequired` has run: `user` is what it has left
-- in req.user.
pub mod Moderation
pub mod Threads
pub mod Messages
pub mod Watch
pub mod Outcomes
pub mod Participants
pub mod Reports
pub mod Reactions
pub mod Notifications
