-- ===== src/Api.antt =====
-- HTTP handlers of relay/internal/handler over the stores, the hub and Redis.
pub mod Schema
pub mod Keys
