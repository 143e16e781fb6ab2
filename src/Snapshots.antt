-- ===== src/Snapshots.antt =====
-- agent/worldbackup.py: content-addressed backups of a server's folder.
pub mod Model
pub mod Walk
pub mod Take
pub mod Remove
pub mod Restore
pub mod Objects
pub mod Loop
pub mod Collected
pub mod Complete
pub mod Thinned
pub mod Views
pub mod Rows
pub mod Folders
pub mod RoundTrip
pub mod Ready
pub mod Walks
