-- ===== src/Tests.antt =====
-- Concrete libraries, states and runs of the program.
mod Store
mod World
mod Caches
mod Events
mod Settings
mod Runs
mod Answers
mod Messages
mod Counters
