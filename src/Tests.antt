-- ===== src/Tests.antt =====
-- Runs of the model on small configurations, and the theorems at inputs that meet their hypotheses.
mod Samples
mod ModelTests
mod IntervalTests
mod AuditTests
mod AuthTests
mod EventTests
mod ClassifyTests
mod ReconcilerTests
mod ValidatorTests
mod CompileTests
mod StoreTests
mod ApiTests
