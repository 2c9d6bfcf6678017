-- ===== src/Operator.antt =====
-- operator/: parts that the operators share.
pub mod IgnoreList
