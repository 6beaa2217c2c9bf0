-- ===== src/Nfs41.antt =====
-- The client of NFSv4.1: the part of the library under nfs41/.
pub mod Slots
pub mod Stripes
pub mod State
pub mod Layout
pub mod Compound
pub mod ReadPlus
pub mod Callback
