-- ===== src/Rpc.antt =====
-- The remote calls that the client makes by writing into a server's memory.
pub mod L5
pub mod Rfp
pub mod Batch
pub mod Scale
pub mod Octo
pub mod Alloc
pub mod Farm
pub mod Tailwind
pub mod Clover
pub mod Send
pub mod Send2
