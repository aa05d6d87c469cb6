-- ===== src/Tests.antt =====
-- Runs of the operations on small databases.
pub mod Rows
mod Reviews
mod Faces
mod FollowUps
mod People
mod Series
mod Merges
mod Audiences
mod Erasures
mod Cleanups
mod Jobs
mod Transitions
