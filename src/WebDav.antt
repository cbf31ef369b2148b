-- ===== src/WebDav.antt =====
-- lied/src/webdav: the file-system view of the entity tree.
pub mod Path
pub mod Access
pub mod Fs
