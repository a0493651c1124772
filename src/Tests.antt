-- ===== src/Tests.antt =====
-- The theorems at concrete inputs, and runs of the definitions.
mod Utility
mod HashMap
mod Lookup
mod Removal
mod Export
mod Delta
mod Training
mod Lock
mod Reach
mod Checks
mod Update
mod Requirements
mod Dense
mod Locks
mod Create
mod Import
