-- ===== src/Sync.antt =====
-- Synchronisation: the revision lease of a workspace and the push on the server (src/server/sync),
-- and the outbox and the engine of the client (src/client/sync).
pub mod Revision
pub mod Push
pub mod Outbox
pub mod Operation
pub mod Engine
mod Tests
