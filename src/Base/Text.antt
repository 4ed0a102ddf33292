-- ===== src/Base/Text.antt =====
-- Python's `str` as its list of code points, with the methods that the program calls. `lower` and
-- `upper` map the ASCII letters; the keys and names that the program lowers are ASCII.
mod Prefix
mod Strip
pub mod Split
unfoldable pub use Prefix.*
unfoldable pub use Strip.*
