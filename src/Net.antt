-- ===== src/Net.antt =====
-- What the nwm thread puts on the wire: source/nwm_rs/src/entries/thread_nwm/vars.rs.
pub mod Packet
pub mod Pace
pub mod Sender
pub mod Carry
pub mod Collect
pub mod Headers
pub mod Deliver
pub mod Progress
pub mod Checksum
mod Tests
mod SenderTests
