-- ===== src/Sound/ProcessRules.antt =====
-- The handlers of internal/core/core.go without a file keep the invariant.
use wasi.Prelude.{ℕ, ◌≡◌, length}
use wasi.Memory.{Mem}
use wasi.Memory.Strings.{length-write_counts, length-write_strings}
use wasi.Exec.{Plugin, Params}
use wasi.Exec.Keeps.{Keeps, Keeps-check}
use wasi.Sound.{Bounds, IsSound}
use wasi.Sound.Rules.{resize}
use wasi.Sound.Calls.{call_rules}
use wasi.Process.{
  with_memory, proc_exit, args_sizes_get, args_get, environ_sizes_get, environ_get, clock_time_get,
  clock_res_get, random_get, sched_yield, proc_raise, sock_accept, unsupported_socket,
}

module _ {W : Type 0} (e : Plugin W) {b : Bounds} where
  with_memory-IsSound :
      (call : Mem → ℕ × Mem)
      → ((mem : Mem) → length (call mem).1 ≡ length mem)
      → Keeps (IsSound b) (with_memory e call)
  unfolding with_memory
  with_memory-IsSound call same = record {
    at = λ s h.
        (Keeps-check {Q = IsSound b} (call s.mem).0).at (record s { mem = (call s.mem).1 })
          (resize h (same s.mem));
  }

  pub proc_exit-IsSound : (p : Params) → Keeps (IsSound b) (proc_exit e p)
  unfolding proc_exit
  proc_exit-IsSound p = search call_rules

  pub args_sizes_get-IsSound : (p : Params) → Keeps (IsSound b) (args_sizes_get e p)
  unfolding args_sizes_get
  args_sizes_get-IsSound p = with_memory-IsSound _ (λ mem. length-write_counts mem _ _ e.cfg.args)

  pub args_get-IsSound : (p : Params) → Keeps (IsSound b) (args_get e p)
  unfolding args_get
  args_get-IsSound p = with_memory-IsSound _ (λ mem. length-write_strings mem _ _ e.cfg.args)

  pub environ_sizes_get-IsSound : (p : Params) → Keeps (IsSound b) (environ_sizes_get e p)
  unfolding environ_sizes_get
  environ_sizes_get-IsSound p = with_memory-IsSound _ (λ mem. length-write_counts mem _ _ e.cfg.env)

  pub environ_get-IsSound : (p : Params) → Keeps (IsSound b) (environ_get e p)
  unfolding environ_get
  environ_get-IsSound p = with_memory-IsSound _ (λ mem. length-write_strings mem _ _ e.cfg.env)

  pub clock_time_get-IsSound : (p : Params) → Keeps (IsSound b) (clock_time_get e p)
  unfolding clock_time_get
  clock_time_get-IsSound p = search call_rules depth 20

  pub clock_res_get-IsSound : (p : Params) → Keeps (IsSound b) (clock_res_get e p)
  unfolding clock_res_get
  clock_res_get-IsSound p = search call_rules depth 20

  pub random_get-IsSound : (p : Params) → Keeps (IsSound b) (random_get e p)
  unfolding random_get
  random_get-IsSound p = search call_rules depth 20

  pub sched_yield-IsSound : (p : Params) → Keeps (IsSound b) (sched_yield e p)
  unfolding sched_yield
  sched_yield-IsSound p = search call_rules

  pub proc_raise-IsSound : (p : Params) → Keeps (IsSound b) (proc_raise e p)
  unfolding proc_raise
  proc_raise-IsSound p = search call_rules

  pub sock_accept-IsSound : (p : Params) → Keeps (IsSound b) (sock_accept e p)
  unfolding sock_accept
  sock_accept-IsSound p = search call_rules

  pub unsupported_socket-IsSound : (p : Params) → Keeps (IsSound b) (unsupported_socket e p)
  unfolding unsupported_socket
  unsupported_socket-IsSound p = search call_rules
