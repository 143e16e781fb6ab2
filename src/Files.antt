-- ===== src/Files.antt =====
-- app/files.py and agent/files.py: the paths that the panel passes on and the node accepts.
pub mod Paths
pub mod Panel
pub mod Archive
pub mod Texts
pub mod Clean
pub mod Unpack
pub mod Worlds
