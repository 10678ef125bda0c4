-- ===== src/Tests.antt =====
-- Sample data, runs of the model on it, and each theorem at an input that meets its hypotheses.
mod Samples
mod Time
mod Store
mod RateLimit
mod Delivery
mod Catalog
mod Fanout
mod Policies
mod Auth
mod Scheduler
mod RunEvents
