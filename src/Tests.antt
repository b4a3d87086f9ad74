-- ===== src/Tests.antt =====
-- Runs of the model at concrete inputs.
mod Instances
mod Tables
mod Reads
mod Writes
mod Queries
mod Logs
mod Sql
mod Joins
