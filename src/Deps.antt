-- ===== src/Deps.antt =====
-- app/deps.py: what else a mod needs. The Modrinth branch of `resolve`; CurseForge's visits its
-- dependencies at the same time and is not modelled.
pub mod Stems
pub mod Model
pub mod Pick
pub mod Resolve
pub mod Grows
pub mod Sound
pub mod Levels
pub mod Sorts
pub mod Best
