-- ===== src/Tests.antt =====
-- Concrete inputs: the theorems of the components applied to them.
mod Threads
mod Loading
pub mod Data
mod Sessions
mod Messages
mod Servers
mod Clients
mod Play
mod Wizard
pub mod Requests
mod Sending
pub mod Frames
mod Starting
mod Devices
pub mod Moves
mod Overwriting
