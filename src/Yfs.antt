-- ===== src/Yfs.antt =====
-- The file system client: yfs_client.h and yfs_client.cc, over the extents that its extent client
-- gives.
pub mod Extents
pub mod Names
pub mod Client
