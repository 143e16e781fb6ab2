-- ===== src/Schedules.antt =====
-- app/schedules.py: tasks on a clock.
pub mod Cron
pub mod Fields
pub mod Spec
pub mod Calendar
pub mod Minutes
pub mod Next
pub mod Fires
pub mod Tasks
pub mod Store
pub mod Runs
pub mod Tidy
pub mod Kept
pub mod Changed
pub mod Presets
pub mod Grown
pub mod Dial
pub mod OnTime
pub mod Made
pub mod Linked
pub mod Doing
pub mod Claim
pub mod Remove
pub mod Below
pub mod Ends
pub mod Endless
pub mod Reached
