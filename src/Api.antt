-- ===== src/Api.antt =====
-- api/: the router that hands HTTP requests to the controllers.
pub mod Http
pub mod Router
pub mod Routes
