-- ===== src/Examples.antt =====
-- Concrete jobs, rows and surroundings, on which the theorems are applied and the models run.
pub mod Data
pub mod Stores
pub mod Services
pub mod Breakers
pub mod Retries
pub mod Runs
pub mod Pools
pub mod Reconcilers
pub mod Locks
pub mod Schedulers
pub mod Probes
pub mod Kafkas
pub mod Configurations
pub mod Apis
pub mod Listings
pub mod Webhooks
pub mod Crons
pub mod Etls
