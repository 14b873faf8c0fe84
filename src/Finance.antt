-- ===== src/Finance.antt =====
-- Receipts, their allocation to obligations, and the duplicate warning (src/modules/finance and the
-- gateway of the cloud database).
pub mod Contracts
pub mod Gateway
pub mod Allocation
mod Tests
