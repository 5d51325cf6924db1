-- ===== src/Core/Applications.antt =====
-- Applications: swiftwave_service/core/application.operations.go and application_group.operations.go.
pub mod Models
pub mod Store
pub mod Creation
pub mod Updates
pub mod Lifecycle
pub mod Frames
pub mod Silence
pub mod Wanted
pub mod Rows
pub mod Exact
pub mod Groups
pub mod Sleeping
pub mod Deletion
pub mod Naming
pub mod Unique
pub mod Memory
pub mod Samples
pub mod Examples
