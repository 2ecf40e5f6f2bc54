-- ===== src/Billing.antt =====
-- relay/internal/billing and the webhook of relay/internal/handler/billing.go.
pub mod Gate
pub mod Service
pub mod Webhook
