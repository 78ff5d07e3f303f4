-- ===== src/Contract.antt =====
-- The output contract of a node's worker, read off its predicates (prismpath/contract.py).
pub mod Spec
pub mod Derive
pub mod Gate
