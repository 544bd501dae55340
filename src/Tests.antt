-- ===== src/Tests.antt =====
-- Examples of the theorems at concrete inputs, and runs of the definitions.
mod Data
mod Files
mod Filters
mod Maps
mod Programs
mod Reports
mod Runs
mod Texts
mod Writers
