-- ===== src/Tutoring.antt =====
-- Tutoring: when two recurring sessions conflict, who is billed for a lesson, what the archiving of
-- a student does to a session, and the packages of families (src/modules/tutoring/domain).
pub mod Session
pub mod Schedule
pub mod Family
mod Tests
