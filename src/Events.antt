-- ===== src/Events.antt =====
-- PoC-webui-v2/internal/events: the Event Collector and the reference classifier.
pub mod Float64
pub mod Collector
pub mod Routes
pub mod Classify
