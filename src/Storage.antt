-- ===== src/Storage.antt =====
-- src/storage: pages, the database file and the buffer pool over it.
pub mod Page
pub mod Disk
pub mod Pool
