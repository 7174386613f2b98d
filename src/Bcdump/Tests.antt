-- ===== src/Bcdump/Tests.antt =====
-- The theorems on concrete dumps.
mod Samples
mod Writer
mod Reader
mod RoundTrip
