-- ===== src/Core/Routing.antt =====
-- The rules of swiftwave_service/core that share the ports of the proxies: ingress_rule.operations.go
-- and redirect_rule.oprations.go on one database.
pub mod Invariant
pub mod Changes
pub mod Accepted
pub mod Creation
pub mod Redirection
pub mod RedirectCreation
pub mod References
pub mod Histories
pub mod Protection
pub mod Unanswered
pub mod Examples
