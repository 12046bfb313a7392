-- ===== src/Packet.antt =====
-- src/utils/communication/PacketComm.h: the packets, their image in memory and their encryption.
-- A `float` is its 32 bits. What the constructor leaves without a value, the payload, is an
-- argument `junk`. The packed struct is its sixteen bytes on a little-endian machine. The static
-- counter of `getIndexRequest` is a state that `packing` takes and returns.
mod Defs
mod Coding
pub mod Laws
pub mod Image
mod Tests
unfoldable pub use Defs.*
unfoldable pub use Coding.*
pub use Laws.*
