-- ===== src/Auth.antt =====
-- Authentication on the server: the limit on attempts to log in, register and recover, the hashes of
-- secrets, the accounts and sessions, and the access of a request to a workspace.
pub mod RateLimit
pub mod Security
pub mod Accounts
pub mod Service
pub mod Guard
mod Tests
