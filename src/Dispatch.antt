-- ===== src/Dispatch.antt =====
-- `handlerID.call` of internal/core/core.go: the handlers, and the call of one.
pub mod Required
pub mod Authority
use wasi.Prelude.{ℕ}
use wasi.Exec.{Plugin, Exec, Params}
use wasi.Fd.Io.{fd_write, fd_read}
use wasi.Fd.At.{fd_pread, fd_pwrite}
use wasi.Fd.Manage.{
  fd_close, fd_seek, fd_tell, fd_renumber, fd_advise, fd_allocate, fd_datasync, fd_sync,
  fd_filestat_set_size,
}
use wasi.Fd.Stat.{
  fd_fdstat_get, fd_prestat_get, fd_prestat_dir_name, fd_fdstat_set_flags, fd_fdstat_set_rights,
  fd_filestat_get,
}
use wasi.Fd.Times.{fd_filestat_set_times}
use wasi.Fd.Readdir.{fd_readdir}
use wasi.PathHandlers.{path_create_directory, path_remove_directory}
use wasi.PathHandlers.Metadata.{path_filestat_get, path_filestat_set_times, path_readlink}
use wasi.PathHandlers.Links.{path_link, path_rename, path_symlink, path_unlink_file}
use wasi.PathHandlers.Open.{path_open}
use wasi.Poll.Oneoff.{poll_oneoff}
use wasi.Process.{
  proc_exit, args_sizes_get, args_get, environ_sizes_get, environ_get, clock_time_get,
  clock_res_get, random_get, sched_yield, proc_raise, sock_accept, unsupported_socket,
}

-- `handlerID`.
pub data HandlerId : Type 0 where
  dispatch_fd_write dispatch_fd_read dispatch_fd_close : HandlerId
  dispatch_fd_seek dispatch_fd_fdstat_get dispatch_fd_prestat_get : HandlerId
  dispatch_fd_prestat_dir_name dispatch_proc_exit dispatch_args_sizes_get : HandlerId
  dispatch_args_get dispatch_environ_sizes_get dispatch_environ_get : HandlerId
  dispatch_clock_time_get dispatch_clock_res_get dispatch_random_get : HandlerId
  dispatch_sched_yield dispatch_fd_advise dispatch_fd_allocate : HandlerId
  dispatch_fd_datasync dispatch_fd_sync dispatch_fd_fdstat_set_flags : HandlerId
  dispatch_fd_fdstat_set_rights dispatch_fd_filestat_get dispatch_fd_filestat_set_size : HandlerId
  dispatch_fd_filestat_set_times dispatch_fd_pread dispatch_fd_pwrite : HandlerId
  dispatch_fd_readdir dispatch_fd_renumber dispatch_fd_tell : HandlerId
  dispatch_path_create_directory dispatch_path_filestat_get dispatch_path_filestat_set_times :
      HandlerId
  dispatch_path_link dispatch_path_open dispatch_path_readlink : HandlerId
  dispatch_path_remove_directory dispatch_path_rename dispatch_path_symlink : HandlerId
  dispatch_path_unlink_file dispatch_poll_oneoff dispatch_proc_raise : HandlerId
  dispatch_sock_accept dispatch_sock_recv dispatch_sock_send : HandlerId
  dispatch_sock_shutdown : HandlerId

-- `rounds` is what `poll_oneoff` may take.
module _ {W : Type 0} (e : Plugin W) (rounds : ℕ) where
  unfoldable pub call : HandlerId → Params → Exec W (Unit {0})
  call dispatch_fd_write p = fd_write e p
  call dispatch_fd_read p = fd_read e p
  call dispatch_fd_close p = fd_close e p
  call dispatch_fd_seek p = fd_seek e p
  call dispatch_fd_fdstat_get p = fd_fdstat_get e p
  call dispatch_fd_prestat_get p = fd_prestat_get e p
  call dispatch_fd_prestat_dir_name p = fd_prestat_dir_name e p
  call dispatch_proc_exit p = proc_exit e p
  call dispatch_args_sizes_get p = args_sizes_get e p
  call dispatch_args_get p = args_get e p
  call dispatch_environ_sizes_get p = environ_sizes_get e p
  call dispatch_environ_get p = environ_get e p
  call dispatch_clock_time_get p = clock_time_get e p
  call dispatch_clock_res_get p = clock_res_get e p
  call dispatch_random_get p = random_get e p
  call dispatch_sched_yield p = sched_yield e p
  call dispatch_fd_advise p = fd_advise e p
  call dispatch_fd_allocate p = fd_allocate e p
  call dispatch_fd_datasync p = fd_datasync e p
  call dispatch_fd_sync p = fd_sync e p
  call dispatch_fd_fdstat_set_flags p = fd_fdstat_set_flags e p
  call dispatch_fd_fdstat_set_rights p = fd_fdstat_set_rights e p
  call dispatch_fd_filestat_get p = fd_filestat_get e p
  call dispatch_fd_filestat_set_size p = fd_filestat_set_size e p
  call dispatch_fd_filestat_set_times p = fd_filestat_set_times e p
  call dispatch_fd_pread p = fd_pread e p
  call dispatch_fd_pwrite p = fd_pwrite e p
  call dispatch_fd_readdir p = fd_readdir e p
  call dispatch_fd_renumber p = fd_renumber e p
  call dispatch_fd_tell p = fd_tell e p
  call dispatch_path_create_directory p = path_create_directory e p
  call dispatch_path_filestat_get p = path_filestat_get e p
  call dispatch_path_filestat_set_times p = path_filestat_set_times e p
  call dispatch_path_link p = path_link e p
  call dispatch_path_open p = path_open e p
  call dispatch_path_readlink p = path_readlink e p
  call dispatch_path_remove_directory p = path_remove_directory e p
  call dispatch_path_rename p = path_rename e p
  call dispatch_path_symlink p = path_symlink e p
  call dispatch_path_unlink_file p = path_unlink_file e p
  call dispatch_poll_oneoff p = poll_oneoff e rounds p
  call dispatch_proc_raise p = proc_raise e p
  call dispatch_sock_accept p = sock_accept e p
  call dispatch_sock_recv p = unsupported_socket e p
  call dispatch_sock_send p = unsupported_socket e p
  call dispatch_sock_shutdown p = unsupported_socket e p
