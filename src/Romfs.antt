-- ===== src/Romfs.antt =====
-- "project_File system/src/super.c": the read-only file system romfs with the three module parameters
-- that hide a file, encrypt a file and make a file executable.
pub mod Format
pub mod Page
pub mod Inode
pub mod Dir
pub mod Super
mod Tests
