-- ===== src/SshToolkit.antt =====
-- ssh_toolkit: the connections to the servers.
pub mod Pool
