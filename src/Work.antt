-- ===== src/Work.antt =====
-- The encoder threads' frame: entries/work_thread/vars.rs.
pub mod Picture
pub mod Rows
pub mod Share
pub mod Slices
pub mod Cover
pub mod Whole
pub mod Pace
pub mod Rate
pub mod Terms
pub mod Gather
pub mod Fill
pub mod Frame
pub mod Read
pub mod Fields
pub mod Received
pub mod Sent
pub mod Gate
pub mod Census
pub mod Tally
pub mod Phases
pub mod Alone
pub mod Complete
mod Tests
