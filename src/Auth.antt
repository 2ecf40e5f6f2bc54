-- ===== src/Auth.antt =====
-- relay/internal/auth and relay/internal/apikey: tokens, the account handlers, and who a request is from.
pub mod Jwt
pub mod Accounts
pub mod Bearer
