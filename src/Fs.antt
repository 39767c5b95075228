-- ===== src/Fs.antt =====
-- fs/: the file system of the root device.
pub mod Task
pub mod Types
pub mod Sectors
pub mod Inodes
pub mod Path
pub mod Bitmap
pub mod Create
pub mod Files
pub mod ReadWrite
pub mod Unlink
pub mod Mkfs
pub mod Sample
mod Tests
