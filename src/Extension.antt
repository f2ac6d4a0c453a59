-- ===== src/Extension.antt =====
-- The browser extension.
pub mod Pick
pub mod Pac
pub mod Destination
pub mod Store
mod Tests
