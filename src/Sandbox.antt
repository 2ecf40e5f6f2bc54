-- ===== src/Sandbox.antt =====
-- relay/internal/sandbox/docker.go: DockerBuilder.
pub mod Paths
