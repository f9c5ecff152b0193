-- ===== src/Vfs.antt =====
-- aether-kernel/libs/aether-vfs: what the virtual file system shares with the files behind it.
mod Types
mod Tests
pub mod Flags
pub mod Path
pub mod Wait
pub mod Open
pub mod Flock
unfoldable pub use Types.*
