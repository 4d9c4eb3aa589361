-- ===== src/Tests.antt =====
-- Runs of the model on small data, and the theorems at concrete inputs.
mod Sample
mod Attempts
mod Api
mod Support
mod Formatter
mod UsageTable
mod Plugin
mod Contexts
mod Witnesses
mod Parts
