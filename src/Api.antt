-- ===== src/Api.antt =====
-- app/api: the error responses, the middleware and the endpoints.
pub mod Problems
pub mod Middleware
pub mod Layers
pub mod Routes
pub mod Endpoints
pub mod Health
