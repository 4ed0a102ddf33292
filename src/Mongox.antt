-- ===== src/Mongox.antt =====
-- src/core_py/model/mongox: the documents, the queries and the repository over a collection.
pub mod Value
pub mod Codec
pub mod Query
pub mod Patch
pub mod Act
pub mod Repository
