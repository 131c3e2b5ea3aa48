-- ===== src/Filter.antt =====
-- src/filter.rs, src/filter_expr.rs and src/sql_filter.rs: which packets pass.
pub mod Numbers
pub mod Names
pub mod Letters
pub mod Expr
pub mod Sql
