-- ===== src/Dispatch/Authority.antt =====
-- What a call that succeeds had of the table, for every handler of internal/core/core.go.
use wasi.Prelude.{bit_or}
use wasi.Abi.Rights.{
  right_fd_read, right_fd_write, right_fd_seek, right_fd_tell, right_fd_advise, right_fd_allocate,
  right_fd_data_sync, right_fd_sync, right_fd_filestat_set_size, right_fd_stat_set_flags,
  right_fd_filestat_get, right_fd_filestat_set_times, right_fd_read_dir, right_path_open,
  right_path_create_directory, right_path_remove_directory, right_path_filestat_get,
  right_path_filestat_set_times, right_path_readlink, right_path_link_source,
  right_path_link_target, right_path_rename_source, right_path_rename_target, right_path_symlink,
  right_path_unlink_file,
}
use wasi.Table.{FsState}
use wasi.Exec.{Params, u32}
use wasi.Exec.Needs.{Needs}
use wasi.Dispatch.{HandlerId}
use wasi.Dispatch.Required.{IsOpen, Holds, Lends}

-- What a handler asks of the descriptors among its parameters; nothing for the handlers that are on
-- none, for the sockets', none of which succeeds, and for poll_oneoff, which asks for each
-- subscription.
abbrev pub Authorised : HandlerId → Params → FsState → Type 0
Authorised HandlerId.dispatch_fd_write p fs = Holds fs (u32 (p 0)) right_fd_write
Authorised HandlerId.dispatch_fd_read p fs = Holds fs (u32 (p 0)) right_fd_read
Authorised HandlerId.dispatch_fd_seek p fs = Holds fs (u32 (p 0)) right_fd_seek
Authorised HandlerId.dispatch_fd_tell p fs = Holds fs (u32 (p 0)) right_fd_tell
Authorised HandlerId.dispatch_fd_advise p fs = Holds fs (u32 (p 0)) right_fd_advise
Authorised HandlerId.dispatch_fd_allocate p fs = Holds fs (u32 (p 0)) right_fd_allocate
Authorised HandlerId.dispatch_fd_datasync p fs = Holds fs (u32 (p 0)) right_fd_data_sync
Authorised HandlerId.dispatch_fd_sync p fs = Holds fs (u32 (p 0)) right_fd_sync
Authorised HandlerId.dispatch_fd_filestat_set_size p fs =
    Holds fs (u32 (p 0)) right_fd_filestat_set_size
Authorised HandlerId.dispatch_fd_fdstat_set_flags p fs =
    Holds fs (u32 (p 0)) right_fd_stat_set_flags
Authorised HandlerId.dispatch_fd_filestat_get p fs = Holds fs (u32 (p 0)) right_fd_filestat_get
Authorised HandlerId.dispatch_fd_filestat_set_times p fs =
    Holds fs (u32 (p 0)) right_fd_filestat_set_times
Authorised HandlerId.dispatch_fd_pread p fs =
    Holds fs (u32 (p 0)) (bit_or right_fd_read right_fd_seek)
Authorised HandlerId.dispatch_fd_pwrite p fs =
    Holds fs (u32 (p 0)) (bit_or right_fd_write right_fd_seek)
Authorised HandlerId.dispatch_fd_readdir p fs = Holds fs (u32 (p 0)) right_fd_read_dir
Authorised HandlerId.dispatch_fd_close p fs = IsOpen fs (u32 (p 0))
Authorised HandlerId.dispatch_fd_fdstat_get p fs = IsOpen fs (u32 (p 0))
Authorised HandlerId.dispatch_fd_prestat_get p fs = IsOpen fs (u32 (p 0))
Authorised HandlerId.dispatch_fd_prestat_dir_name p fs = IsOpen fs (u32 (p 0))
Authorised HandlerId.dispatch_fd_fdstat_set_rights p fs = IsOpen fs (u32 (p 0))
Authorised HandlerId.dispatch_fd_renumber p fs = IsOpen fs (u32 (p 0)) × IsOpen fs (u32 (p 1))
Authorised HandlerId.dispatch_path_create_directory p fs =
    Holds fs (u32 (p 0)) right_path_create_directory
Authorised HandlerId.dispatch_path_remove_directory p fs =
    Holds fs (u32 (p 0)) right_path_remove_directory
Authorised HandlerId.dispatch_path_filestat_get p fs = Holds fs (u32 (p 0)) right_path_filestat_get
Authorised HandlerId.dispatch_path_filestat_set_times p fs =
    Holds fs (u32 (p 0)) right_path_filestat_set_times
Authorised HandlerId.dispatch_path_readlink p fs = Holds fs (u32 (p 0)) right_path_readlink
Authorised HandlerId.dispatch_path_unlink_file p fs = Holds fs (u32 (p 0)) right_path_unlink_file
Authorised HandlerId.dispatch_path_symlink p fs = Holds fs (u32 (p 2)) right_path_symlink
Authorised HandlerId.dispatch_path_link p fs =
    Holds fs (u32 (p 0)) right_path_link_source × Holds fs (u32 (p 4)) right_path_link_target
Authorised HandlerId.dispatch_path_rename p fs =
    Holds fs (u32 (p 0)) right_path_rename_source × Holds fs (u32 (p 3)) right_path_rename_target
Authorised HandlerId.dispatch_path_open p fs = Lends fs (u32 (p 0)) right_path_open (p 5) (p 6)
Authorised _ p fs = Unit
