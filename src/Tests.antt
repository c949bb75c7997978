-- ===== src/Tests.antt =====
-- Concrete inputs on which the theorems apply. The samples stand for the code that is a parameter.
pub mod Samples
mod Data
mod Registries
mod Feeds
mod Beats
mod Asyncs
mod Managers
mod Durations
mod Dynamics
mod Concurrency
mod Logging
mod EndToEnd
mod Demos
