-- ===== src/Bcdump/Format.antt =====
-- The dump format, after the grammar in LuaJIT-2.0.1/src/lj_bcdump.h: what a dump holds, and its bytes.
pub mod Values
pub mod Save
pub mod Valid
pub mod Load
pub mod Pieces
