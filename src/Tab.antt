-- ===== src/Tab.antt =====
-- Tables: LuaJIT-2.0.1/src/lj_tab.c and lj_tab.h.
pub mod Types
pub mod Hash
pub mod Chain
pub mod Find
pub mod NewKey
pub mod Set
pub mod Len
pub mod Next
pub mod New
pub mod Resize
pub mod Tests
