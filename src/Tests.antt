-- ===== src/Tests.antt =====
-- Concrete runs, and the theorems at concrete inputs.
mod Wire
mod Framing
mod Replies
mod Bridge
mod Letters
mod Loops
mod Subscriber
mod SetUp
mod Search
mod System
mod Sessions
mod Pairs
mod Passage
mod Servers
mod Sensors
mod Assertions
mod Shutdown
