-- ===== src/Dkit.antt =====
-- The package src/core_py/dkit: options, errors, the in-memory backend and the default kit.
pub mod Options
pub mod Errors
pub mod Memory
pub mod Numbers
pub mod Kit
pub mod Redis
pub mod Mongo
