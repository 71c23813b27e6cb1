-- ===== src/Tests.antt =====
-- Runs of the models at concrete inputs, and the theorems applied at them.
mod Wire
mod Maps
mod Files
mod Search
mod Rules
mod Play
mod Bags
