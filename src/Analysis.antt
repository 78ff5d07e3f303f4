-- ===== src/Analysis.antt =====
-- The static analysis of a flow (prismpath/analysis.py).
pub mod Fragment
pub mod Reach
pub mod Components
pub mod Always
pub mod Finding
pub mod Routes
pub mod Fields
pub mod Cycles
pub mod Analyze
pub mod Compose
