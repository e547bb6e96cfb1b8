-- ===== src/Udif.antt =====
-- internal/udif: the writer of the disk image around the volume.
pub mod Chunks
pub mod Pipeline
pub mod Regions
pub mod Koly
pub mod Blkx
