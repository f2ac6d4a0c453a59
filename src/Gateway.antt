-- ===== src/Gateway.antt =====
-- The browser gateway, glukvpn-extension-1.5.0/server/glukvpn-browser-proxy/src/server.js.
pub mod Config
pub mod State
pub mod Counters
pub mod Credentials
pub mod ControlPlane
pub mod Auth
pub mod Shaping
pub mod Target
pub mod Connect
pub mod Tunnels
pub mod Requests
pub mod Revalidation
pub mod System
mod Tests
