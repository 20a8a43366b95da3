-- ===== src/Host/Linux.antt =====
-- The flags of Linux that internal/core/fs_linux.go and internal/core/fs.go pass to the host.
use wasi.Prelude.{ℕ, Bool, false}

abbrev pub o_rdonly : ℕ
o_rdonly = 0

abbrev pub o_wronly : ℕ
o_wronly = 1

abbrev pub o_rdwr : ℕ
o_rdwr = 2

abbrev pub o_creat : ℕ
o_creat = 0x40

abbrev pub o_excl : ℕ
o_excl = 0x80

abbrev pub o_trunc : ℕ
o_trunc = 0x200

abbrev pub o_append : ℕ
o_append = 0x400

abbrev pub o_nonblock : ℕ
o_nonblock = 0x800

abbrev pub o_directory : ℕ
o_directory = 0x10000

abbrev pub o_nofollow : ℕ
o_nofollow = 0x20000

abbrev pub o_cloexec : ℕ
o_cloexec = 0x80000

abbrev pub o_path : ℕ
o_path = 0x200000

abbrev pub at_symlink_nofollow : ℕ
at_symlink_nofollow = 0x100

abbrev pub at_removedir : ℕ
at_removedir = 0x200

abbrev pub at_empty_path : ℕ
at_empty_path = 0x1000

-- RESOLVE_BENEATH | RESOLVE_NO_MAGICLINKS
abbrev pub secure_resolve : ℕ
secure_resolve = 0xa

abbrev pub host_open_write_attributes : ℕ
host_open_write_attributes = 0

abbrev pub host_open_can_create_directory : Bool
host_open_can_create_directory = false
