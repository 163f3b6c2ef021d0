-- ===== src/Tests.antt =====
-- Test data, and the theorems at concrete inputs.
mod Hash
mod Data
mod Runs
mod Serving
mod Commands
mod Forged
mod Process
mod Requests
mod Programs
mod Orders
mod Stored
mod Prometheus
