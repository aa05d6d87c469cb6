-- ===== src/Invariants.antt =====
-- What holds of the committed rows after any requests.
pub mod TaskRows
pub mod Approvals
pub mod Skips
pub mod Resolutions
pub mod Participants
pub mod Points
pub mod Dual
pub mod Life
