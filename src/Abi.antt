-- ===== src/Abi.antt =====
-- internal/core/abi.go with internal/core/abi_unix.go: the numbers of the Preview 1 interface.
pub mod Errno
pub mod Rights
pub mod Codes
pub mod Filetype
