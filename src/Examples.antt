-- ===== src/Examples.antt =====
-- Runs of the definitions at concrete inputs, and the theorems applied at some.
mod PredicatesRun
mod EngineRun
mod TelemetryRun
mod GraphRun
mod AnalysisRun
mod CheckpointRun
mod QuantizerRun
mod PackedRun
mod ModelCheckRun
