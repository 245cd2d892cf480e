-- ===== src/Print.antt =====
-- The printing of trees: `escape_json` of path.cpp, the visitors of json.cpp, bash.cpp and raw.cpp, and
-- the walks of janosh.cpp that call them.
pub mod Escape
pub mod Visitors
pub mod Walk
pub mod Balance
pub mod Recurse
pub mod Command
pub mod Random
pub mod JsonPath
pub mod Filter
pub mod Document
pub mod Dispatch
