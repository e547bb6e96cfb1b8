-- ===== src/Hfsplus.antt =====
-- internal/hfsplus: the write-once HFS+ volume builder.
pub mod Allocation
pub mod Types
pub mod Entry
pub mod Keys
pub mod Utf16
pub mod Plan
pub mod Layout
pub mod Btree
pub mod Header
pub mod Records
pub mod Structs
pub mod Attr
