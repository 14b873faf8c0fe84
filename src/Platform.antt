-- ===== src/Platform.antt =====
-- What carries the modules of the product: their definitions and the check of their dependencies, the
-- surfaces that show their widgets, and the bus of their events.
pub mod Modules
pub mod Surfaces
pub mod Events
mod Tests
