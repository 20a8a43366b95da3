-- ===== src/Imports.antt =====
-- The imports of internal/core/core.go: the table of bindings with their signatures and
-- capabilities, and the callback of a binding. The texts that document a binding are left out.
pub mod Arity
mod Bound
pub mod Isolation
use wasi.Prelude.{
  ℕ, zero, suc, List, [], ◌∷◌, Bool, true, false, Option, none, some, ◌⊎◌, inl, inr, length, map,
  get_or, get_elem?, if◌then◌else◌,
}
use Prim.Native.String.{String}
use wasi.Host.{Io}
use wasi.Memory.{Mem}
use wasi.Table.{FsState}
use wasi.Table.Map.{lookup, insert}
use wasi.Exec.{Plugin, Machine, Exec, Result, ok, err, Params}
use wasi.Callers.{Guard, state_for}
use wasi.Dispatch.{HandlerId, call}

-- wago.ValType, the two of its values that the signatures use.
pub data ValType : Type 0 where
  val_i32 val_i64 : ValType

-- wago.Capability.
pub data Capability : Type 0 where
  cap_fd_read cap_fd_write cap_fd_manage cap_path_read : Capability
  cap_path_open cap_path_write cap_arguments_read cap_environment_read : Capability
  cap_clock_read cap_random_read cap_process_exit cap_poll : Capability
  cap_scheduler_yield cap_unsupported : Capability

-- An element of `importSignatures`: the first `count` of its values.
abbrev pub import_signatures : List (List ValType)
import_signatures =
    (val_i32 ∷ val_i32 ∷ val_i32 ∷ val_i32 ∷ [])
    ∷ (val_i32 ∷ [])
    ∷ (val_i32 ∷ val_i64 ∷ val_i32 ∷ val_i32 ∷ [])
    ∷ (val_i32 ∷ val_i32 ∷ [])
    ∷ (val_i32 ∷ val_i32 ∷ val_i32 ∷ [])
    ∷ (val_i32 ∷ val_i64 ∷ val_i32 ∷ [])
    ∷ []
    ∷ (val_i32 ∷ val_i64 ∷ val_i64 ∷ val_i32 ∷ [])
    ∷ (val_i32 ∷ val_i64 ∷ val_i64 ∷ [])
    ∷ (val_i32 ∷ val_i64 ∷ [])
    ∷ (val_i32 ∷ val_i32 ∷ val_i32 ∷ val_i64 ∷ val_i32 ∷ [])
    ∷ (val_i32 ∷ val_i32 ∷ val_i32 ∷ val_i32 ∷ val_i32 ∷ [])
    ∷ (val_i32 ∷ val_i32 ∷ val_i32 ∷ val_i32 ∷ val_i64 ∷ val_i64 ∷ val_i32 ∷ [])
    ∷ (val_i32 ∷ val_i32 ∷ val_i32 ∷ val_i32 ∷ val_i32 ∷ val_i32 ∷ val_i32 ∷ [])
    ∷ (val_i32 ∷ val_i32 ∷ val_i32 ∷ val_i32 ∷ val_i32 ∷ val_i64 ∷ val_i64 ∷ val_i32 ∷ val_i32 ∷ [])
    ∷ (val_i32 ∷ val_i32 ∷ val_i32 ∷ val_i32 ∷ val_i32 ∷ val_i32 ∷ [])
    ∷ []

pub record Binding : Type 0 where
  pub name : String
  pub handler : HandlerId
  pub signature : ℕ
  pub errno : Bool
  pub cap : Capability

abbrev bind : String → HandlerId → ℕ → Bool → Capability → Binding
bind name handler signature errno cap = record {
  name = name;
  handler = handler;
  signature = signature;
  errno = errno;
  cap = cap;
}

abbrev pub import_bindings : List Binding
import_bindings =
    bind "fd_write" HandlerId.dispatch_fd_write 0 true cap_fd_write
    ∷ bind "fd_read" HandlerId.dispatch_fd_read 0 true cap_fd_read
    ∷ bind "fd_close" HandlerId.dispatch_fd_close 1 true cap_fd_manage
    ∷ bind "fd_seek" HandlerId.dispatch_fd_seek 2 true cap_fd_manage
    ∷ bind "fd_fdstat_get" HandlerId.dispatch_fd_fdstat_get 3 true cap_fd_manage
    ∷ bind "fd_prestat_get" HandlerId.dispatch_fd_prestat_get 3 true cap_fd_manage
    ∷ bind "fd_prestat_dir_name" HandlerId.dispatch_fd_prestat_dir_name 4 true cap_fd_manage
    ∷ bind "proc_exit" HandlerId.dispatch_proc_exit 1 false cap_process_exit
    ∷ bind "args_sizes_get" HandlerId.dispatch_args_sizes_get 3 true cap_arguments_read
    ∷ bind "args_get" HandlerId.dispatch_args_get 3 true cap_arguments_read
    ∷ bind "environ_sizes_get" HandlerId.dispatch_environ_sizes_get 3 true cap_environment_read
    ∷ bind "environ_get" HandlerId.dispatch_environ_get 3 true cap_environment_read
    ∷ bind "clock_time_get" HandlerId.dispatch_clock_time_get 5 true cap_clock_read
    ∷ bind "clock_res_get" HandlerId.dispatch_clock_res_get 3 true cap_clock_read
    ∷ bind "random_get" HandlerId.dispatch_random_get 3 true cap_random_read
    ∷ bind "sched_yield" HandlerId.dispatch_sched_yield 6 true cap_scheduler_yield
    ∷ bind "fd_advise" HandlerId.dispatch_fd_advise 7 true cap_fd_manage
    ∷ bind "fd_allocate" HandlerId.dispatch_fd_allocate 8 true cap_fd_write
    ∷ bind "fd_datasync" HandlerId.dispatch_fd_datasync 1 true cap_fd_write
    ∷ bind "fd_sync" HandlerId.dispatch_fd_sync 1 true cap_fd_write
    ∷ bind "fd_fdstat_set_flags" HandlerId.dispatch_fd_fdstat_set_flags 3 true cap_fd_manage
    ∷ bind "fd_fdstat_set_rights" HandlerId.dispatch_fd_fdstat_set_rights 8 true cap_fd_manage
    ∷ bind "fd_filestat_get" HandlerId.dispatch_fd_filestat_get 3 true cap_fd_read
    ∷ bind "fd_filestat_set_size" HandlerId.dispatch_fd_filestat_set_size 9 true cap_fd_write
    ∷ bind "fd_filestat_set_times" HandlerId.dispatch_fd_filestat_set_times 7 true cap_fd_write
    ∷ bind "fd_pread" HandlerId.dispatch_fd_pread 10 true cap_fd_read
    ∷ bind "fd_pwrite" HandlerId.dispatch_fd_pwrite 10 true cap_fd_write
    ∷ bind "fd_readdir" HandlerId.dispatch_fd_readdir 10 true cap_fd_read
    ∷ bind "fd_renumber" HandlerId.dispatch_fd_renumber 3 true cap_fd_manage
    ∷ bind "fd_tell" HandlerId.dispatch_fd_tell 3 true cap_fd_manage
    ∷ bind "path_create_directory" HandlerId.dispatch_path_create_directory 4 true cap_path_write
    ∷ bind "path_filestat_get" HandlerId.dispatch_path_filestat_get 11 true cap_path_read
    ∷ bind "path_filestat_set_times" HandlerId.dispatch_path_filestat_set_times 12 true
        cap_path_write
    ∷ bind "path_link" HandlerId.dispatch_path_link 13 true cap_path_write
    ∷ bind "path_open" HandlerId.dispatch_path_open 14 true cap_path_open
    ∷ bind "path_readlink" HandlerId.dispatch_path_readlink 15 true cap_path_read
    ∷ bind "path_remove_directory" HandlerId.dispatch_path_remove_directory 4 true cap_path_write
    ∷ bind "path_rename" HandlerId.dispatch_path_rename 15 true cap_path_write
    ∷ bind "path_symlink" HandlerId.dispatch_path_symlink 11 true cap_path_write
    ∷ bind "path_unlink_file" HandlerId.dispatch_path_unlink_file 4 true cap_path_write
    ∷ bind "poll_oneoff" HandlerId.dispatch_poll_oneoff 0 true cap_poll
    ∷ bind "proc_raise" HandlerId.dispatch_proc_raise 1 true cap_unsupported
    ∷ bind "sock_accept" HandlerId.dispatch_sock_accept 4 true cap_unsupported
    ∷ bind "sock_recv" HandlerId.dispatch_sock_recv 15 true cap_unsupported
    ∷ bind "sock_send" HandlerId.dispatch_sock_send 11 true cap_unsupported
    ∷ bind "sock_shutdown" HandlerId.dispatch_sock_shutdown 3 true cap_unsupported
    ∷ []

-- An index outside the signatures would be a panic in Go.
abbrev pub params : Binding → List ValType
params b = get_or import_signatures b.signature []

abbrev pub results : Binding → List ValType
results b = if b.errno then val_i32 ∷ [] else []

module _ {W : Type 0} (e : Plugin W) (rounds : ℕ) where
  -- The call on the state at a place, which is locked meanwhile, and written back. `stateFor` gives
  -- a place of the heap.
  unfoldable pub run_at :
      HandlerId → Params → ℕ → Mem → Guard → W → Result (Unit {0}) × Mem × Guard × W
  run_at handler p place mem g w = elim (lookup place g.heap) [
    | none ↦ (err 0, mem, g, w)
    | some fs ↦
        let (r, s) = call e rounds handler p (record { fs = fs; mem = mem; world = w }) in
        (r, s.mem, record g { heap = insert place s.fs g.heap }, s.world)
  ]

  unfoldable pub call_at :
      HandlerId → Params → (ℕ ⊎ ℕ) → Mem → Guard → W → Result (Unit {0}) × Mem × Guard × W
  unfolding run_at
  call_at handler p (inl code) mem g w = (err code, mem, g, w)
  call_at handler p (inr place) mem g w = run_at handler p place mem g w

  -- The four handlers of `argumentCallback` take the memory of the caller and the plugin's
  -- configuration alone; they are run like the others here.
  unfoldable pub callback :
      Binding → Option (Io ℕ) → Params → Mem → Guard → W → Result (Unit {0}) × Mem × Guard × W
  unfolding call_at state_for
  callback b resolved p mem g w =
      let (found, g', w') = state_for e.host e.cfg resolved g w in
      call_at b.handler p found mem g' w'
