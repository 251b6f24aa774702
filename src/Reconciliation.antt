-- ===== src/Reconciliation.antt =====
-- internal/application/reconciliation: the synchronization of a site with New API.
pub mod Types
pub mod Actions
pub mod Steps
pub mod SiteVerify
pub mod Attempts
pub mod Resource
pub mod SiteGroups
pub mod SiteRun
pub mod SiteManaged
pub mod Service
pub mod Single
pub mod Trace
pub mod Endings
pub mod Diff
mod Examples
mod SiteExamples
