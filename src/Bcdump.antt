-- ===== src/Bcdump.antt =====
-- Bytecode dumps: LuaJIT-2.0.1/src/lj_bcdump.h, lj_bcwrite.c and lj_bcread.c.
pub mod Buffer
pub mod Uleb
pub mod Types
pub mod Write
pub mod Format
pub mod Read
pub mod RoundTrip
mod Tests
