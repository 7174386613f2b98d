-- ===== src/Bcdump/Write.antt =====
-- The bytecode writer: LuaJIT-2.0.1/src/lj_bcwrite.c.
pub mod Words
pub mod Bytecode
pub mod Table
pub mod Consts
pub mod Proto
