-- ===== src/Json.antt =====
-- nlohmann::json, as the program calls it.
mod Defs
pub mod Sample
pub use Defs.*
