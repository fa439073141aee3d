-- ===== src/Tests.antt =====
-- Inputs on which the theorems are applied, and runs of the code on them.
mod Scheduler
mod Swapping
mod Managing
mod Paging
mod Arriving
mod Moving
mod Policy
