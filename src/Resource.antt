-- ===== src/Resource.antt =====
-- src/core_py/resource.py: identifiers, options, the limited reader and the manager.
pub mod Limit
pub mod Settings
pub mod Identifier
pub mod Manager
pub mod Handlers
