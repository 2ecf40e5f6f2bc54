-- ===== src/Usage.antt =====
-- relay/internal/usage: the tiers, and the quota that decides whether a user's next action is
-- allowed under its tier.
pub mod Plans
pub mod Quota
