-- ===== src/Reminder.antt =====
-- packages/self-reminder: the service that delivers reminders, a client of the hub.
pub mod Lifecycle
