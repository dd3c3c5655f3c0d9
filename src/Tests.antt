-- ===== src/Tests.antt =====
-- Concrete runs, and each theorem at a concrete input that meets its hypotheses.
mod Graphs
mod Conds
mod Ignored
mod Inverted
mod Bench
mod Units
mod Failing
mod Named
mod Threads
mod Wrapped
mod Dumped
mod Logged
mod Spinning
mod Calls
mod Frames
mod Supported
mod Asleep
mod Traced
