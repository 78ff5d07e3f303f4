-- ===== src/Engine.antt =====
-- The engine (prismpath/engine.py): `run` over a graph, an agent and a router.
pub mod State
pub mod Turn
pub mod Run
pub mod Walk
pub mod Ungated
pub mod Trace
pub mod Window
pub mod TypeGate
