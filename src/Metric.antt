-- ===== src/Metric.antt =====
-- internal/metric: how usage events become totals.
pub mod Sum
pub mod Merge
pub mod Slice
pub mod Axes
