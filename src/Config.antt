-- ===== src/Config.antt =====
-- src/core_py/config.py: loading, merging, checking and masking a configuration.
pub mod Value
pub mod Maps
pub mod Parse
pub mod Checks
pub mod Load
