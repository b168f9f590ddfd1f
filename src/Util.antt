-- ===== src/Util.antt =====
-- casbin/util: the routines on strings and on arrays of strings, one module for each group.
pub mod Trim
pub mod Split
pub mod Arrays
pub mod Equality
pub mod Eval
pub mod KeyMatch
pub mod Tests
