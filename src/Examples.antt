-- ===== src/Examples.antt =====
-- The theorems at concrete inputs, and runs of the definitions.
mod Routing
mod Messages
mod Handlers
mod Strategies
mod Tables
mod Learning
mod Processes
mod Engines
mod Runs
mod Verdicts
mod Lifecycles
mod Proxies
