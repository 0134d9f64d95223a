-- ===== src/Tests.antt =====
-- Runs of the model on concrete inputs.
mod Concrete
mod Limits
mod Login
mod Reset
mod Access
mod Throttle
mod Overlap
mod Journey
mod Counters
mod Startup
