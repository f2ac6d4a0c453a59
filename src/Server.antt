-- ===== src/Server.antt =====
-- The control server, control-server/src.
mod Tests
pub mod Ip
pub mod Store
pub mod Results
pub mod Nodes
pub mod Admission
pub mod Commands
pub mod Sessions
pub mod Monitor
pub mod Lifecycle
pub mod Speed
pub mod Routes
pub mod Entitlements
pub mod Quota
pub mod Promo
pub mod Tokens
pub mod Link
pub mod Orders
pub mod Throttle
