-- ===== src/Evaluation.antt =====
-- internal/domain/evaluation: whether a supplier's model is the one it is sold as, from the distance
-- between fingerprints (normalize.go, which parses single answers, is not modelled).
pub mod Types
pub mod Distance
pub mod Fingerprint
pub mod Assessment
mod Examples
