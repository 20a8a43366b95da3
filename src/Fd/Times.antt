-- ===== src/Fd/Times.antt =====
-- File times: `validFstFlags`, `timesFor`, `filesystemNow`, `fdFilestatSetTimes` of
-- internal/core/fs.go, and `hostAccessTime`, `setFileTimes` of internal/core/fs_linux.go. A
-- time.Time is its UnixNano() as a 64-bit word.
use wasi.Prelude.{
  ℕ, ◌+◌, ◌*◌, ◌%◌, ◌^◌, Bool, not, ◌&&◌, ◌||◌, none, some, [], ◌⊎◌, inl, inr, bit_and, ltb, ◌==◌,
  is_some, if◌then◌else◌,
}
use wasi.Prelude.Bits.{and_not}
use wasi.Abi.Errno.{wasi_ebadf, wasi_einval, wasi_eoverflow, wasi_enotsup}
use wasi.Abi.Rights.{right_fd_filestat_set_times}
use wasi.Host.{FileInfo}
use wasi.Host.Linux.{at_empty_path}
use wasi.Clock.{Reading}
use wasi.Exec.{Plugin, Exec, Params, u32, max_int64, ◌>>=◌, pure, host, lift}
use wasi.Fd.Entry.{entry_with, require_file, host_check, stat}

unfoldable pub valid_fst_flags : ℕ → Bool
valid_fst_flags flags =
    (and_not flags 15 == 0) && (not (bit_and flags 3 == 3) && not (bit_and flags 12 == 12))

unfoldable pub host_access_time : FileInfo → ℕ
host_access_time info = elim info.sys [
  | none ↦ info.mod_time
  | some st ↦ (st.atim_sec * 1000000000 + st.atim_nsec) % 2 ^ 64
]

-- if flags&bit != 0 { old = new }
abbrev pub chosen : ℕ → ℕ → ℕ → ℕ → ℕ
chosen flags bit new old = if bit_and flags bit == 0 then old else new

-- The access and the modification time to set, or the error code.
unfoldable pub times_for : FileInfo → ℕ → ℕ → ℕ → ℕ → ℕ ⊎ (ℕ × ℕ)
times_for info atim mtim flags now =
    if not (valid_fst_flags flags)
    then inl wasi_einval
    else if (not (bit_and flags 1 == 0) && ltb max_int64 atim)
        || (not (bit_and flags 4 == 0) && ltb max_int64 mtim)
    then inl wasi_eoverflow
    else inr (
      chosen flags 2 now (chosen flags 1 atim (host_access_time info)),
      chosen flags 8 now (chosen flags 4 mtim info.mod_time),
    )

-- The code of a reading that file times cannot use.
unfoldable pub filesystem_time : Reading → ℕ ⊎ ℕ
filesystem_time r = if is_some r.error || ltb max_int64 r.now then inl wasi_enotsup else inr r.now

module _ {W : Type 0} (e : Plugin W) where
  unfoldable pub filesystem_now : Exec W ℕ
  filesystem_now = do r ← host e.clocks.realtime; lift (filesystem_time r)

  -- The times of a call with these parameters; the clock is read only where a flag asks for it.
  unfoldable pub requested_times : FileInfo → ℕ → ℕ → ℕ → Exec W (ℕ × ℕ)
  requested_times info atim mtim flags = do
    now ← if bit_and flags 0xa == 0 then pure 0 else filesystem_now
    lift (times_for info atim mtim flags now)

  unfoldable pub set_file_times : ℕ → ℕ × ℕ → Exec W (Unit {0})
  set_file_times file times = host_check (e.host.utimens file [] times.0 times.1 at_empty_path)

  unfoldable pub fd_filestat_set_times : Params → Exec W (Unit {0})
  fd_filestat_set_times p = do
    f ← entry_with (u32 (p 0)) right_fd_filestat_set_times
    file ← require_file f wasi_ebadf
    info ← stat e file
    times ← requested_times info (p 1) (p 2) (p 3)
    set_file_times file times
