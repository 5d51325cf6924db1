-- ===== src/ContainerManager.antt =====
-- container_manager: the Docker Swarm services behind applications.
pub mod Client
pub mod Updates
pub mod DockerProxy
pub mod Realtime
pub mod Examples
