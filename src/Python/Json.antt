-- ===== src/Python/Json.antt =====
-- JSON as the code uses it: the values, and `json.dumps`.
pub mod Values
pub mod Dumps
pub mod Access
pub use Values.*
