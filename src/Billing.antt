-- ===== src/Billing.antt =====
-- Billing of lessons: the arithmetic of packages, the tables of plans and cycles in the cloud
-- database, and the service that books completed lessons into packages.
pub mod Package
pub mod Repository
pub mod Plan
pub mod Service
mod Tests
