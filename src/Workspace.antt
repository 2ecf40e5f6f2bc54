-- ===== src/Workspace.antt =====
-- relay/internal/workspace/workspace.go: the source tree of a box.
pub mod Path
pub mod Tree
pub mod Repo
