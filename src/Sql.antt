-- ===== src/Sql.antt =====
-- internal/classify and internal/detect: what the proxy reads off the parse tree of a query.
pub mod Tree
pub mod Classify
pub mod Detect
