-- ===== src/Source.antt =====
-- dmg.go: the directory tree that becomes the volume.
pub mod Walk
pub mod Scan
pub mod Collect
