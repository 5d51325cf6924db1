-- ===== src/StackParser.antt =====
-- swiftwave_service/stack_parser: how a stack file is read and its variables are filled in.
pub mod Variables
pub mod Braces
pub mod Filling
pub mod Cycles
pub mod Versions
pub mod Order
pub mod Examples
