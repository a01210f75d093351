-- ===== src/Tests.antt =====
-- Concrete runs of the modelled code, and the theorems applied to them.
mod Samples
mod RollbackRuns
mod AlertRuns
mod CheckRuns
mod DomainRuns
mod ContainerRuns
mod HostRuns
mod AccountRuns
mod ClientRuns
