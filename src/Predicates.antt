-- ===== src/Predicates.antt =====
-- The deterministic tier's predicates (prismpath/predicates.py).
pub mod Value
pub mod Syntax
pub mod Eval
pub mod Condition
pub mod Total
pub mod Kinds
pub mod Fold
pub mod Limits
pub mod Compare
