-- ===== src/Fd.antt =====
-- The fd_* handlers of internal/core/core.go and internal/core/fs.go. A handler takes the parameter
-- words and leaves its code in r[0].
pub mod Entry
pub mod Io
pub mod At
pub mod Manage
pub mod Stat
pub mod Times
pub mod Readdir
pub mod Steps
pub mod Closing
pub mod Lowering
