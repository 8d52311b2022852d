-- ===== src/Panel.antt =====
-- server/internal/panel: the administration panel.
pub mod Logs
pub mod Http
pub mod Settings
pub mod Tokens
pub mod Routes
pub mod Store
pub mod Clients
pub mod Pages
pub mod Requests
