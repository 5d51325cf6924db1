-- ===== src/Core.antt =====
-- swiftwave_service/core: the records of the database and the operations on them.
pub mod Database
pub mod Models
pub mod IngressRules
pub mod RedirectRules
pub mod Domains
pub mod Memory
pub mod Deployments
pub mod Routing
pub mod Queries
pub mod Reconcile
pub mod Applications
pub mod ConsoleTokens
