-- ===== src/Routing.antt =====
-- internal/domain/routing: relations between suppliers and sites, and the snapshots of what the
-- gateway of a site is to offer.
pub mod Types
pub mod Examples
pub mod Relation
pub mod Snapshot
pub mod Validation
