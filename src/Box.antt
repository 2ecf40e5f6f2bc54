-- ===== src/Box.antt =====
-- relay/internal/box: the use-cases of a box (create, build and publish, archive), their quota gates
-- and the "bundle ready" notifications.
pub mod Gates
pub mod Service
