-- ===== src/Lua.antt =====
-- lua_script.cpp: the transactions that Lua threads open one after the other, and their named locks.
pub mod Transactions
pub mod Locks
pub mod Fairness
