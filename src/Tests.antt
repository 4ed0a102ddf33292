-- ===== src/Tests.antt =====
-- Runs of the modelled functions, and the theorems at concrete inputs.
mod Context
mod Config
mod Data
mod Dkit
mod Resource
mod Httpx
mod Stream
mod Model
mod Mongox
mod Redis
mod Mongo
