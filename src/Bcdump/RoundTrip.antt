-- ===== src/Bcdump/RoundTrip.antt =====
-- The writer and the reader together, on builds of either byte order.
pub mod Saved
pub mod Whole
