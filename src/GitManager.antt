-- ===== src/GitManager.antt =====
-- git_manager: the reading and writing of repository URLs.
pub mod Parser
