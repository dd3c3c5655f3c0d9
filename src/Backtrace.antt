-- ===== src/Backtrace.antt =====
-- The backtraces of a thread: one of libc_backtrace.c and libunwind_backtrace.c is built.
pub mod Libc
pub mod Unwind
