-- ===== src/Examples.antt =====
-- Runs of the model on concrete inputs.
mod Data
mod Routes
mod Rights
mod Accounts
mod Factors
mod Work
mod Tasks
mod Times
mod Chains
mod Presets
mod Paths
mod Backups
mod Groups
mod Plans
mod Polls
mod Settings
