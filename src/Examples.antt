-- ===== src/Examples.antt =====
-- Runs of the theorems at concrete inputs.
mod Network
mod L5
mod Rfp
mod AddrTable
mod Batch
mod Scale
mod Octo
mod Alloc
mod Client
mod Message
mod Connection
mod Regions
mod Slots
mod Setup
mod Exchange
mod Farm
mod Tailwind
mod Clover
mod Dispatch
mod Send
mod Send2
