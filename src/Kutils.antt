-- ===== src/Kutils.antt =====
-- kernel/core/kutils.c: the kernel's own C library.
pub mod Div64
pub mod Strings
pub mod Decimal
mod Tests
