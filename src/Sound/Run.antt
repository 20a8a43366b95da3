-- ===== src/Sound/Run.antt =====
-- Every call of a guest keeps the invariant, and so does any sequence of calls: `handlerID.call` of
-- internal/core/core.go.
use wasi.Prelude.{ℕ, ◌≡◌, length}
use wasi.Exec.{Plugin, Machine, Params}
use wasi.Exec.Keeps.{Keeps}
use wasi.Dispatch.{HandlerId, call}
use wasi.Sound.{Bounds, IsSound}
use wasi.Sound.Rules.{resize}
use wasi.Memory.{Mem}
use wasi.Sound.FdRules
use wasi.Sound.StatRules
use wasi.Sound.TableRules
use wasi.Sound.ProcessRules
use wasi.Sound.PathRules
use wasi.Sound.OpenRules
use wasi.Poll.Sound.{poll_oneoff-IsSound}

module _ {W : Type 0} (e : Plugin W) (rounds : ℕ) where
  -- One step of a caller: a call of a handler, or what goes on between two calls, when the guest
  -- writes to its memory and the world changes by itself.
  pub data Step : Machine W → Machine W → Type 0 where
    called : (s : Machine W) (h : HandlerId) (p : Params) → Step s (call e rounds h p s).1
    between :
        (s : Machine W) (mem : Mem) (w : W)
        → length mem ≡ length s.mem
        → Step s (record s { mem = mem; world = w })

  pub data Reach : Machine W → Machine W → Type 0 where
    start : (s : Machine W) → Reach s s
    next : {s t u : Machine W} → Reach s t → Step t u → Reach s u

module _ {W : Type 0} (e : Plugin W) (rounds : ℕ) {b : Bounds} where
  call-Keeps : (h : HandlerId) (p : Params) → Keeps (IsSound b) (call e rounds h p)
  unfolding call
  call-Keeps HandlerId.dispatch_fd_write p = FdRules.fd_write-IsSound e p
  call-Keeps HandlerId.dispatch_fd_read p = FdRules.fd_read-IsSound e p
  call-Keeps HandlerId.dispatch_fd_close p = FdRules.fd_close-IsSound e p
  call-Keeps HandlerId.dispatch_fd_seek p = FdRules.fd_seek-IsSound e p
  call-Keeps HandlerId.dispatch_fd_fdstat_get p = StatRules.fd_fdstat_get-IsSound e p
  call-Keeps HandlerId.dispatch_fd_prestat_get p = StatRules.fd_prestat_get-IsSound e p
  call-Keeps HandlerId.dispatch_fd_prestat_dir_name p = StatRules.fd_prestat_dir_name-IsSound e p
  call-Keeps HandlerId.dispatch_proc_exit p = ProcessRules.proc_exit-IsSound e p
  call-Keeps HandlerId.dispatch_args_sizes_get p = ProcessRules.args_sizes_get-IsSound e p
  call-Keeps HandlerId.dispatch_args_get p = ProcessRules.args_get-IsSound e p
  call-Keeps HandlerId.dispatch_environ_sizes_get p = ProcessRules.environ_sizes_get-IsSound e p
  call-Keeps HandlerId.dispatch_environ_get p = ProcessRules.environ_get-IsSound e p
  call-Keeps HandlerId.dispatch_clock_time_get p = ProcessRules.clock_time_get-IsSound e p
  call-Keeps HandlerId.dispatch_clock_res_get p = ProcessRules.clock_res_get-IsSound e p
  call-Keeps HandlerId.dispatch_random_get p = ProcessRules.random_get-IsSound e p
  call-Keeps HandlerId.dispatch_sched_yield p = ProcessRules.sched_yield-IsSound e p
  call-Keeps HandlerId.dispatch_fd_advise p = FdRules.fd_advise-IsSound e p
  call-Keeps HandlerId.dispatch_fd_allocate p = FdRules.fd_allocate-IsSound e p
  call-Keeps HandlerId.dispatch_fd_datasync p = FdRules.fd_datasync-IsSound e p
  call-Keeps HandlerId.dispatch_fd_sync p = FdRules.fd_sync-IsSound e p
  call-Keeps HandlerId.dispatch_fd_fdstat_set_flags p = StatRules.fd_fdstat_set_flags-IsSound e p
  call-Keeps HandlerId.dispatch_fd_fdstat_set_rights p = StatRules.fd_fdstat_set_rights-IsSound e p
  call-Keeps HandlerId.dispatch_fd_filestat_get p = StatRules.fd_filestat_get-IsSound e p
  call-Keeps HandlerId.dispatch_fd_filestat_set_size p = FdRules.fd_filestat_set_size-IsSound e p
  call-Keeps HandlerId.dispatch_fd_filestat_set_times p =
      StatRules.fd_filestat_set_times-IsSound e p
  call-Keeps HandlerId.dispatch_fd_pread p = FdRules.fd_pread-IsSound e p
  call-Keeps HandlerId.dispatch_fd_pwrite p = FdRules.fd_pwrite-IsSound e p
  call-Keeps HandlerId.dispatch_fd_readdir p = TableRules.fd_readdir-IsSound e p
  call-Keeps HandlerId.dispatch_fd_renumber p = TableRules.fd_renumber-IsSound e p
  call-Keeps HandlerId.dispatch_fd_tell p = FdRules.fd_tell-IsSound e p
  call-Keeps HandlerId.dispatch_path_create_directory p =
      PathRules.path_create_directory-IsSound e p
  call-Keeps HandlerId.dispatch_path_filestat_get p = PathRules.path_filestat_get-IsSound e p
  call-Keeps HandlerId.dispatch_path_filestat_set_times p =
      PathRules.path_filestat_set_times-IsSound e p
  call-Keeps HandlerId.dispatch_path_link p = PathRules.path_link-IsSound e p
  call-Keeps HandlerId.dispatch_path_open p = OpenRules.path_open-IsSound e p
  call-Keeps HandlerId.dispatch_path_readlink p = PathRules.path_readlink-IsSound e p
  call-Keeps HandlerId.dispatch_path_remove_directory p =
      PathRules.path_remove_directory-IsSound e p
  call-Keeps HandlerId.dispatch_path_rename p = PathRules.path_rename-IsSound e p
  call-Keeps HandlerId.dispatch_path_symlink p = PathRules.path_symlink-IsSound e p
  call-Keeps HandlerId.dispatch_path_unlink_file p = PathRules.path_unlink_file-IsSound e p
  call-Keeps HandlerId.dispatch_poll_oneoff p = poll_oneoff-IsSound e rounds p
  call-Keeps HandlerId.dispatch_proc_raise p = ProcessRules.proc_raise-IsSound e p
  call-Keeps HandlerId.dispatch_sock_accept p = ProcessRules.sock_accept-IsSound e p
  call-Keeps HandlerId.dispatch_sock_recv p = ProcessRules.unsupported_socket-IsSound e p
  call-Keeps HandlerId.dispatch_sock_send p = ProcessRules.unsupported_socket-IsSound e p
  call-Keeps HandlerId.dispatch_sock_shutdown p = ProcessRules.unsupported_socket-IsSound e p

  Step-IsSound : (s t : Machine W) → Step e rounds s t → IsSound b s.fs s.mem → IsSound b t.fs t.mem
  Step-IsSound _ _ (called s h p) sound = (call-Keeps h p).at s sound
  Step-IsSound _ _ (between s mem w same) sound = resize sound same

  -- From a sound table, however a guest calls the handlers, whatever the
  -- host answers, and whatever the guest writes to its memory between two calls: every descriptor
  -- keeps to the authority of its mount, the table keeps to its limit, and the memory to its size.
  pub Reach-IsSound :
      (s t : Machine W) → Reach e rounds s t → IsSound b s.fs s.mem → IsSound b t.fs t.mem
  Reach-IsSound _ _ (start s) sound = sound
  Reach-IsSound _ _ (next {s = s} {t = u} {u = t} before step) sound =
      Step-IsSound u t step (Reach-IsSound s u before sound)
