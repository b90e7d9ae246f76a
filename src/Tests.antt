-- ===== src/Tests.antt =====
-- The theorems at concrete inputs.
pub mod Samples
mod Runs
mod Submissions
mod Tokens
mod Auth
mod Pipeline
mod Tables
mod Chain
mod Services
mod Api
mod Http
mod Reports
