-- ===== src/Bcdump/Read.antt =====
-- The bytecode reader: LuaJIT-2.0.1/src/lj_bcread.c.
pub mod Values
pub mod Proto
