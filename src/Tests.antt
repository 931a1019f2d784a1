-- ===== src/Tests.antt =====
-- Runs of the model, and each theorem with a condition at one input where it holds.
mod Files
mod Hub
mod Plane
mod Cli
mod Metrics
mod Calendar
mod Graph
mod Usage
mod Git
