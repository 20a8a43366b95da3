-- ===== src/Host.antt =====
-- The host that internal/core calls: the operating system and Go's os, io and crypto/rand. It is a
-- parameter of the development, a record of calls on a world `W` that only the host knows; nothing
-- is assumed of what a call returns. A call that Go retries while it is interrupted is one call.
pub mod Linux
use wasi.Prelude.{ℕ, List, Option, Bool, none, some, ◌⊎◌}
use wasi.Abi.Errno.{Error}
use wasi.Abi.Filetype.{FileMode}

-- A Go string: its bytes.
abbrev pub Bytes : Type 0
Bytes = List ℕ

-- Go's int, as far as the code looks at one that a reader or writer returns.
pub data ℤ : Type 0 where
  pos : ℕ → ℤ
  negsuc : ℕ → ℤ

-- A value, or a non-nil error.
pub data Io {ℓ} (A : Type ℓ) : Type ℓ where
  done : A → Io A
  failed : Error → Io A

-- An io.Reader or io.Writer: an *os.File by its descriptor, or any other.
pub data Stream : Type 0 where
  os_file : ℕ → Stream
  custom : ℕ → Stream

-- syscall.Stat_t; the times are int64 words.
pub record SysStat : Type 0 where
  pub dev : ℕ
  pub ino : ℕ
  pub nlink : ℕ
  pub atim_sec : ℕ
  pub atim_nsec : ℕ
  pub ctim_sec : ℕ
  pub ctim_nsec : ℕ

-- fs.FileInfo; `mod_time` is ModTime().UnixNano() as a word.
pub record FileInfo : Type 0 where
  pub mode : FileMode
  pub size : ℕ
  pub mod_time : ℕ
  pub sys : Option SysStat

-- What polling asks of the host. Whether a configured stream implements Pollable, or has a method
-- Bytes, is a fact of its type. `now` is the monotonic clock in nanoseconds. `file_stat` and
-- `file_poll` are Control of a file's raw connection with fstat and poll(2) in it: what Control or
-- the connection itself fails with, or what the system call inside returned.
pub record PollCalls (W : Type 0) : Type 0 where
  pub is_pollable : ℕ → Bool
  pub has_bytes : ℕ → Bool
  pub ready : ℕ → W → Bool × W
  pub file_stat : ℕ → W → Io (Option Error) × W
  pub file_poll : ℕ → ℕ → W → Io (Io ℕ) × W
  pub now : W → ℕ × W
  -- the waits of the given streams, each for reading or writing, and of the context, with a timeout:
  -- `inl` is the result of one wait, `inr` the error of the context
  pub await : List (ℕ × Stream) → Option ℕ → W → (Option Error ⊎ Error) × W
  -- the wait for a context with a timeout alone, which ends with the context's error
  pub await_deadline : ℕ → W → Error × W
  pub context_error : W → Option Error × W
  -- a timer beside the context: `false` where the context ended first
  pub pause : ℕ → W → Bool × W

pub record Host (W : Type 0) : Type 0 where
  -- (n, err) of io.Writer and io.Reader; a read also fills the buffer.
  pub write : Stream → Bytes → W → ℤ × Option Error × W
  pub write_nonblocking : ℕ → Bytes → W → ℤ × Option Error × W
  pub read : Stream → ℕ → W → ℤ × Option Error × Bytes × W
  pub read_nonblocking : ℕ → ℕ → W → ℤ × Option Error × Bytes × W
  pub pread : ℕ → ℕ → ℕ → W → ℕ × Option Error × Bytes × W
  pub pwrite : ℕ → Bytes → ℕ → W → ℤ × Option Error × W
  pub close : ℕ → W → Option Error × W
  pub seek : ℕ → ℕ → ℕ → W → Io ℕ × W
  pub stat : ℕ → W → Io FileInfo × W
  pub sync : ℕ → W → Option Error × W
  pub fallocate : ℕ → ℕ → ℕ → W → Option Error × W
  pub truncate : ℕ → ℕ → W → Option Error × W
  pub get_flags : ℕ → W → Io ℕ × W
  pub set_flags : ℕ → ℕ → W → Option Error × W
  -- openat2 with the given RESOLVE flags, openat, dup and the calls on a name below a descriptor
  pub openat2 : ℕ → Bytes → ℕ → ℕ → ℕ → W → Io ℕ × W
  pub openat : ℕ → Bytes → ℕ → ℕ → W → Io ℕ × W
  pub dup : ℕ → W → Io ℕ × W
  pub readlinkat : ℕ → Bytes → ℕ → W → Io Bytes × W
  pub mkdirat : ℕ → Bytes → ℕ → W → Option Error × W
  pub linkat : ℕ → Bytes → ℕ → Bytes → W → Option Error × W
  pub unlinkat : ℕ → Bytes → ℕ → W → Option Error × W
  pub renameat : ℕ → Bytes → ℕ → Bytes → W → Option Error × W
  pub symlinkat : Bytes → ℕ → Bytes → W → Option Error × W
  pub utimens : ℕ → Bytes → ℕ → ℕ → ℕ → W → Option Error × W
  -- (*os.File).ReadDir: the names that it returns
  pub read_dir : ℕ → ℕ → W → List Bytes × Option Error × W
  -- filepath.Abs, and `openPreopen`
  pub abs : Bytes → W → Io Bytes × W
  pub open_preopen : Bytes → W → Io ℕ × W
  pub random : ℕ → W → Bytes × Option Error × W
  pub poll : PollCalls W
