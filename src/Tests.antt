-- ===== src/Tests.antt =====
-- Concrete runs of the program, and the theorems at concrete data.
mod Casing
mod Setting
mod Queue
mod Dispatch
mod Flow
mod Gates
mod Runs
mod Rules
mod Totals
mod Startup
mod Life
mod Ids
mod Mapped
mod Provider
mod Schema
mod Start
mod Delivery
mod Retry
