-- ===== src/Imports/Arity.antt =====
-- internal/core/core.go, `importBindings`: how many parameters the bound handlers read.
use wasi.Prelude.{◌≡◌, refl, ℕ, zero, suc, List, [], ◌∷◌, All}
use wasi.Exec.{Plugin, Params}
use wasi.Fd.Io.{fd_write, fd_read}
use wasi.Fd.At.{fd_pread, fd_pwrite}
use wasi.Fd.Manage.{
  fd_close, fd_seek, fd_tell, fd_renumber, fd_advise, fd_allocate, fd_datasync, fd_sync,
  fd_filestat_set_size,
}
use wasi.Fd.Stat.{
  fd_fdstat_get, fd_prestat_get, fd_prestat_dir_name, fd_fdstat_set_flags, fd_fdstat_set_rights,
  fd_filestat_get,
}
use wasi.Fd.Times.{fd_filestat_set_times}
use wasi.Fd.Readdir.{fd_readdir}
use wasi.PathHandlers.{path_create_directory, path_remove_directory}
use wasi.PathHandlers.Metadata.{path_filestat_get, path_filestat_set_times, path_readlink}
use wasi.PathHandlers.Links.{path_link, path_rename, path_symlink, path_unlink_file}
use wasi.PathHandlers.Open.{path_open}
use wasi.Poll.Oneoff.{poll_oneoff}
use wasi.Process.{
  proc_exit, args_sizes_get, args_get, environ_sizes_get, environ_get, clock_time_get,
  clock_res_get, random_get, sched_yield, proc_raise, sock_accept, unsupported_socket,
}
use wasi.Fd.Manage.{sync_fd}
use wasi.Dispatch.{call}
use wasi.Imports.{ValType, import_bindings, params}

-- A slice of parameters with one for each value of a signature; the words past it are not there.
abbrev pub cut : List ValType → Params → Params
cut [] p i = 0
cut (v ∷ vs) p zero = p 0
cut (v ∷ vs) p (suc i) = cut vs (λ j. p (suc j)) i

module _ {W : Type 0} (e : Plugin W) (rounds : ℕ) where
  -- No handler reads a parameter beyond those of its signature: called with the parameters of its
  -- signature alone, it does what it does with any that follow them.
  pub call-cut :
      (p : Params)
      → All
          (λ b. call e rounds b.handler (cut (params b) p) ≡ call e rounds b.handler p)
          import_bindings
  unfolding call sync_fd fd_write fd_read fd_close fd_seek fd_fdstat_get fd_prestat_get
      fd_prestat_dir_name proc_exit args_sizes_get args_get environ_sizes_get environ_get
      clock_time_get clock_res_get random_get sched_yield fd_advise fd_allocate fd_datasync fd_sync
      fd_fdstat_set_flags fd_fdstat_set_rights fd_filestat_get fd_filestat_set_size
      fd_filestat_set_times fd_pread fd_pwrite fd_readdir fd_renumber fd_tell path_create_directory
      path_filestat_get path_filestat_set_times path_link path_open path_readlink
      path_remove_directory path_rename path_symlink path_unlink_file poll_oneoff proc_raise
      sock_accept unsupported_socket wasi.PathHandlers.path_unary
      wasi.PathHandlers.Metadata.set_times_followed wasi.PathHandlers.Metadata.set_times_leaf
      wasi.PathHandlers.Open.check_request wasi.PathHandlers.Open.open_resolved
      wasi.PathHandlers.Open.check_effects wasi.PathHandlers.Open.open_file
      wasi.PathHandlers.Open.check_kind wasi.PathHandlers.Open.opened_entry
      wasi.PathHandlers.Open.retry_directory wasi.PathHandlers.Open.install
  call-cut p = (
    refl,
    (
      refl,
      (
        refl,
        (
          refl,
          (
            refl,
            (
              refl,
              (
                refl,
                (
                  refl,
                  (
                    refl,
                    (
                      refl,
                      (
                        refl,
                        (
                          refl,
                          (
                            refl,
                            (
                              refl,
                              (
                                refl,
                                (
                                  refl,
                                  (
                                    refl,
                                    (
                                      refl,
                                      (
                                        refl,
                                        (
                                          refl,
                                          (
                                            refl,
                                            (
                                              refl,
                                              (
                                                refl,
                                                (
                                                  refl,
                                                  (
                                                    refl,
                                                    (
                                                      refl,
                                                      (
                                                        refl,
                                                        (
                                                          refl,
                                                          (
                                                            refl,
                                                            (
                                                            refl,
                                                            (
                                                            refl,
                                                            (
                                                            refl,
                                                            (
                                                            refl,
                                                            (
                                                            refl,
                                                            (
                                                            refl,
                                                            (
                                                            refl,
                                                            (
                                                            refl,
                                                            (
                                                            refl,
                                                            (
                                                            refl,
                                                            (
                                                            refl,
                                                            (
                                                            refl,
                                                            (
                                                            refl,
                                                            (refl, (refl, (refl, (refl, tt)))),
                                                            ),
                                                            ),
                                                            ),
                                                            ),
                                                            ),
                                                            ),
                                                            ),
                                                            ),
                                                            ),
                                                            ),
                                                            ),
                                                            ),
                                                            ),
                                                          ),
                                                        ),
                                                      ),
                                                    ),
                                                  ),
                                                ),
                                              ),
                                            ),
                                          ),
                                        ),
                                      ),
                                    ),
                                  ),
                                ),
                              ),
                            ),
                          ),
                        ),
                      ),
                    ),
                  ),
                ),
              ),
            ),
          ),
        ),
      ),
    ),
  )
