-- ===== src/Scoring.antt =====
-- internal/domain/scoring: latency histograms, dimension scores, evidence, hard gates, the
-- combination of time windows and the shadow recommendation.
mod Examples
mod MetricExamples
pub mod Types
pub mod Gates
pub mod Evidence
pub mod Windows
pub mod Recommendation
pub mod Histogram
pub mod Dimensions
