-- ===== src/Model.antt =====
-- src/core_py/model: the repository options and what builds on them.
pub mod RepoOpt
pub mod Options
pub mod Audit
pub mod Stamps
pub mod Pages
