-- ===== src/Http.antt =====
-- server-go/internal/httpapi: what the handlers read of a request.
pub mod Params
pub mod Middleware
