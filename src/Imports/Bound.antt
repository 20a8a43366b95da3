-- ===== src/Imports/Bound.antt =====
-- internal/core/core.go, `importBindings`: which handlers are bound.
use wasi.Prelude.{◌≡◌, refl, ℕ, Option, none, some, length, get_elem?}
use wasi.Dispatch.{HandlerId}
use wasi.Imports.{import_bindings, results}

-- The number of a handler, in the order of the constants.
abbrev ordinal : HandlerId → ℕ
ordinal HandlerId.dispatch_fd_write = 0
ordinal HandlerId.dispatch_fd_read = 1
ordinal HandlerId.dispatch_fd_close = 2
ordinal HandlerId.dispatch_fd_seek = 3
ordinal HandlerId.dispatch_fd_fdstat_get = 4
ordinal HandlerId.dispatch_fd_prestat_get = 5
ordinal HandlerId.dispatch_fd_prestat_dir_name = 6
ordinal HandlerId.dispatch_proc_exit = 7
ordinal HandlerId.dispatch_args_sizes_get = 8
ordinal HandlerId.dispatch_args_get = 9
ordinal HandlerId.dispatch_environ_sizes_get = 10
ordinal HandlerId.dispatch_environ_get = 11
ordinal HandlerId.dispatch_clock_time_get = 12
ordinal HandlerId.dispatch_clock_res_get = 13
ordinal HandlerId.dispatch_random_get = 14
ordinal HandlerId.dispatch_sched_yield = 15
ordinal HandlerId.dispatch_fd_advise = 16
ordinal HandlerId.dispatch_fd_allocate = 17
ordinal HandlerId.dispatch_fd_datasync = 18
ordinal HandlerId.dispatch_fd_sync = 19
ordinal HandlerId.dispatch_fd_fdstat_set_flags = 20
ordinal HandlerId.dispatch_fd_fdstat_set_rights = 21
ordinal HandlerId.dispatch_fd_filestat_get = 22
ordinal HandlerId.dispatch_fd_filestat_set_size = 23
ordinal HandlerId.dispatch_fd_filestat_set_times = 24
ordinal HandlerId.dispatch_fd_pread = 25
ordinal HandlerId.dispatch_fd_pwrite = 26
ordinal HandlerId.dispatch_fd_readdir = 27
ordinal HandlerId.dispatch_fd_renumber = 28
ordinal HandlerId.dispatch_fd_tell = 29
ordinal HandlerId.dispatch_path_create_directory = 30
ordinal HandlerId.dispatch_path_filestat_get = 31
ordinal HandlerId.dispatch_path_filestat_set_times = 32
ordinal HandlerId.dispatch_path_link = 33
ordinal HandlerId.dispatch_path_open = 34
ordinal HandlerId.dispatch_path_readlink = 35
ordinal HandlerId.dispatch_path_remove_directory = 36
ordinal HandlerId.dispatch_path_rename = 37
ordinal HandlerId.dispatch_path_symlink = 38
ordinal HandlerId.dispatch_path_unlink_file = 39
ordinal HandlerId.dispatch_poll_oneoff = 40
ordinal HandlerId.dispatch_proc_raise = 41
ordinal HandlerId.dispatch_sock_accept = 42
ordinal HandlerId.dispatch_sock_recv = 43
ordinal HandlerId.dispatch_sock_send = 44
ordinal HandlerId.dispatch_sock_shutdown = 45

-- The handler of the binding at an index, and whether the binding has a result.
abbrev bound_at : ℕ → Option (HandlerId × ℕ)
bound_at i = elim (get_elem? import_bindings i) [
  | none ↦ none
  | some b ↦ some (b.handler, length (results b))
]

abbrev result_count : HandlerId → ℕ
result_count HandlerId.dispatch_proc_exit = 0
result_count _ = 1

-- There are as many bindings as handlers, and each handler is bound at its own number: to a
-- function with one result, the error code, but for `proc_exit`, which has none.
handlers_bound :
    (h : HandlerId)
    → (length import_bindings ≡ 46) × (bound_at (ordinal h) ≡ some (h, result_count h))
handlers_bound HandlerId.dispatch_fd_write = (refl, refl)
handlers_bound HandlerId.dispatch_fd_read = (refl, refl)
handlers_bound HandlerId.dispatch_fd_close = (refl, refl)
handlers_bound HandlerId.dispatch_fd_seek = (refl, refl)
handlers_bound HandlerId.dispatch_fd_fdstat_get = (refl, refl)
handlers_bound HandlerId.dispatch_fd_prestat_get = (refl, refl)
handlers_bound HandlerId.dispatch_fd_prestat_dir_name = (refl, refl)
handlers_bound HandlerId.dispatch_proc_exit = (refl, refl)
handlers_bound HandlerId.dispatch_args_sizes_get = (refl, refl)
handlers_bound HandlerId.dispatch_args_get = (refl, refl)
handlers_bound HandlerId.dispatch_environ_sizes_get = (refl, refl)
handlers_bound HandlerId.dispatch_environ_get = (refl, refl)
handlers_bound HandlerId.dispatch_clock_time_get = (refl, refl)
handlers_bound HandlerId.dispatch_clock_res_get = (refl, refl)
handlers_bound HandlerId.dispatch_random_get = (refl, refl)
handlers_bound HandlerId.dispatch_sched_yield = (refl, refl)
handlers_bound HandlerId.dispatch_fd_advise = (refl, refl)
handlers_bound HandlerId.dispatch_fd_allocate = (refl, refl)
handlers_bound HandlerId.dispatch_fd_datasync = (refl, refl)
handlers_bound HandlerId.dispatch_fd_sync = (refl, refl)
handlers_bound HandlerId.dispatch_fd_fdstat_set_flags = (refl, refl)
handlers_bound HandlerId.dispatch_fd_fdstat_set_rights = (refl, refl)
handlers_bound HandlerId.dispatch_fd_filestat_get = (refl, refl)
handlers_bound HandlerId.dispatch_fd_filestat_set_size = (refl, refl)
handlers_bound HandlerId.dispatch_fd_filestat_set_times = (refl, refl)
handlers_bound HandlerId.dispatch_fd_pread = (refl, refl)
handlers_bound HandlerId.dispatch_fd_pwrite = (refl, refl)
handlers_bound HandlerId.dispatch_fd_readdir = (refl, refl)
handlers_bound HandlerId.dispatch_fd_renumber = (refl, refl)
handlers_bound HandlerId.dispatch_fd_tell = (refl, refl)
handlers_bound HandlerId.dispatch_path_create_directory = (refl, refl)
handlers_bound HandlerId.dispatch_path_filestat_get = (refl, refl)
handlers_bound HandlerId.dispatch_path_filestat_set_times = (refl, refl)
handlers_bound HandlerId.dispatch_path_link = (refl, refl)
handlers_bound HandlerId.dispatch_path_open = (refl, refl)
handlers_bound HandlerId.dispatch_path_readlink = (refl, refl)
handlers_bound HandlerId.dispatch_path_remove_directory = (refl, refl)
handlers_bound HandlerId.dispatch_path_rename = (refl, refl)
handlers_bound HandlerId.dispatch_path_symlink = (refl, refl)
handlers_bound HandlerId.dispatch_path_unlink_file = (refl, refl)
handlers_bound HandlerId.dispatch_poll_oneoff = (refl, refl)
handlers_bound HandlerId.dispatch_proc_raise = (refl, refl)
handlers_bound HandlerId.dispatch_sock_accept = (refl, refl)
handlers_bound HandlerId.dispatch_sock_recv = (refl, refl)
handlers_bound HandlerId.dispatch_sock_send = (refl, refl)
handlers_bound HandlerId.dispatch_sock_shutdown = (refl, refl)
