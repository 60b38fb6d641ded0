-- ===== src/Http.antt =====
-- daemon/src/http/api.rs: the HTTP interface. The extractors of axum have made the bodies of the
-- requests, and `serve` binds each route to its handler.
pub mod Reply
pub mod Handler
pub mod Bodies
pub mod Events
pub mod Render
pub mod Handlers
pub mod Steps
pub mod Routes
