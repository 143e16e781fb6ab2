-- ===== src/Jobs.antt =====
-- app/jobs.py: jobs, their progress frames, and what is kept of them in Redis.
pub mod Job
pub mod Frames
pub mod Stream
pub mod Registry
pub mod Recovery
