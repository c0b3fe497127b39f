-- ===== src/Ib.antt =====
-- src/unet/unet_ib.cc: the InfiniBand transport of the network plugin.
pub mod Verbs
pub mod Request
pub mod Comm
pub mod Chunk
pub mod Send
pub mod Isend
pub mod Recv
pub mod Flush
pub mod Completion
pub mod MrCache
pub mod Device
pub mod Pd
pub mod Gid
pub mod Meta
pub mod Connect
pub mod Accept
pub mod Listen
pub mod Stage
pub mod Close
pub mod Async
pub mod Rendezvous
mod Tests
