-- ===== src/Process.antt =====
-- The handlers without a file: the program's exit, arguments, environment, clocks and randomness of
-- internal/core/core.go, and the yield and the stubs at the end of internal/core/fs.go.
use wasi.Prelude.{ℕ, not, Bool, true, false, ltb, is_some, take, if◌then◌else◌}
use wasi.Abi.Errno.{wasi_einval, wasi_eoverflow, wasi_enotsup, wasi_enotsock, wasi_efault, wasi_eio}
use wasi.Memory.{Mem, valid_memory_range, put_le64}
use wasi.Memory.Strings.{write_counts, write_strings}
use wasi.Clock.{ClockError, unsupported_clock, clock_overflow, invalid_clock, clock_value}
use wasi.Exec.{
  Plugin, Exec, Params, u32, ◌>>=◌, ◌>>◌, pure, fail, leave, host, host_pair, on_option, check,
  stop_if, store,
}
use wasi.Fd.Entry.{entry, memory, copy_to}

unfoldable pub overflowed : ClockError → Bool
overflowed clock_overflow = true
overflowed unsupported_clock = false
overflowed invalid_clock = false

module _ {W : Type 0} (e : Plugin W) where
  -- r[0] = f(mem): the memory after the call, and the code.
  unfoldable pub with_memory : (Mem → ℕ × Mem) → Exec W (Unit {0})
  with_memory call s = let (code, mem) = call s.mem in check code (record s { mem = mem })

  unfoldable pub proc_exit : Params → Exec W (Unit {0})
  proc_exit p = leave (u32 (p 0))

  unfoldable pub args_sizes_get : Params → Exec W (Unit {0})
  args_sizes_get p = with_memory (λ mem. write_counts mem (u32 (p 0)) (u32 (p 1)) e.cfg.args)

  unfoldable pub args_get : Params → Exec W (Unit {0})
  args_get p = with_memory (λ mem. write_strings mem (u32 (p 0)) (u32 (p 1)) e.cfg.args)

  unfoldable pub environ_sizes_get : Params → Exec W (Unit {0})
  environ_sizes_get p = with_memory (λ mem. write_counts mem (u32 (p 0)) (u32 (p 1)) e.cfg.env)

  unfoldable pub environ_get : Params → Exec W (Unit {0})
  environ_get p = with_memory (λ mem. write_strings mem (u32 (p 0)) (u32 (p 1)) e.cfg.env)

  unfoldable pub clock_time_get : Params → Exec W (Unit {0})
  clock_time_get p = do
    stop_if (ltb 3 (p 0)) wasi_einval
    r ← host (clock_value e.clocks (u32 (p 0)))
    on_option r.error (pure tt)
        (λ fault. fail (if overflowed fault then wasi_eoverflow else wasi_enotsup))
    store (λ m. put_le64 m (u32 (p 2)) r.now)

  -- A clock past its range still has a resolution.
  unfoldable pub clock_res_get : Params → Exec W (Unit {0})
  clock_res_get p = do
    stop_if (ltb 3 (p 0)) wasi_einval
    r ← host (clock_value e.clocks (u32 (p 0)))
    on_option r.error (pure tt) (λ fault. stop_if (not (overflowed fault)) wasi_enotsup)
    store (λ m. put_le64 m (u32 (p 1)) r.resolution)

  -- A source that fails may have filled a part of the buffer.
  unfoldable pub random_get : Params → Exec W (Unit {0})
  random_get p = do
    mem ← memory
    stop_if (not (valid_memory_range mem (u32 (p 0)) (u32 (p 1)))) wasi_efault
    (bytes, error) ← host_pair (e.host.random (u32 (p 1)))
    copy_to (u32 (p 0)) (take (u32 (p 1)) bytes)
    stop_if (is_some error) wasi_eio

  unfoldable pub sched_yield : Params → Exec W (Unit {0})
  sched_yield p = pure tt

  unfoldable pub proc_raise : Params → Exec W (Unit {0})
  proc_raise p = fail wasi_enotsup

  unfoldable pub sock_accept : Params → Exec W (Unit {0})
  sock_accept p = fail wasi_enotsup

  -- sock_recv, sock_send and sock_shutdown: no descriptor is a socket.
  unfoldable pub unsupported_socket : Params → Exec W (Unit {0})
  unsupported_socket p = do entry (u32 (p 0)); fail wasi_enotsock
