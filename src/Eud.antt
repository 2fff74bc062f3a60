-- ===== src/Eud.antt =====
-- raven/eud_handler/EudHandler.py: the process that serves the stream of one device.
pub mod Framing
pub mod Session
pub mod Login
pub mod Identify
pub mod Stream
pub mod Run
pub mod Kept
pub mod Identified
pub mod Guarded
pub mod Admitted
pub mod Broker
pub mod Published
pub mod Accepted
pub mod Closing
pub mod Commands
mod Examples
