-- ===== src/Util.antt =====
-- Package util (internal/core/util): UUID texts, storage-key directories and torrent files.
pub mod Uuid
pub mod StorageDir
pub mod Torrent
pub mod Magnet
pub mod Bencode
