-- ===== src/Protocol.antt =====
-- protocol: the capability lists, the order of the objects in a pack, and what is read of a client and sent to it.
pub mod Capabilities
pub mod Order
pub mod Lines
pub mod Report
pub mod Unpack
pub mod Commands
pub mod Receive
pub mod Upload
pub mod Negotiation
pub mod Advertise
mod Tests
