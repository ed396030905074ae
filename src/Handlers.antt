-- ===== src/Handlers.antt =====
-- internal/handlers: what the plugin does for one request, and at start.
pub mod Auth
pub mod Forms
pub mod Settings
pub mod Bootstrap
pub mod Pages
pub mod Events
pub mod Manifest
