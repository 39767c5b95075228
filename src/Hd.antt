-- ===== src/Hd.antt =====
-- kernel/hd.c: the driver of the hard disk.
pub mod Types
pub mod Ports
pub mod Transfer
pub mod Partition
pub mod Lawful
pub mod Commands
pub mod Reads
pub mod Writes
pub mod Stuck
pub mod Requests
pub mod Tables
pub mod Entries
pub mod Partitions
pub mod Disk
pub mod Sample
mod Tests
