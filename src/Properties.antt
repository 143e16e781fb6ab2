-- ===== src/Properties.antt =====
-- app/properties.py: the file server.properties.
pub mod Lines
pub mod Edit
pub mod Saved
