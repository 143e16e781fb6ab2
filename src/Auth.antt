-- ===== src/Auth.antt =====
-- app/auth.py: accounts, what they may do, and signing in.
pub mod Permissions
pub mod Model
pub mod Rights
pub mod RightsLaws
pub mod Accounts
pub mod Store
pub mod Admins
pub mod LastAdmin
pub mod Login
pub mod Sessions
pub mod Bootstrap
pub mod SessionLaws
