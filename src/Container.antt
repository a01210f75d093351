-- ===== src/Container.antt =====
-- How a container's state is read: src/services/container-status-classifier.ts,
-- src/common/utils/docker.util.ts and src/deployment-snapshots/docker-inspect-parser.ts.
pub mod Status
pub mod Inspect
