-- ===== src/Examples/Setting.antt =====
-- A host for examples: it knows one directory and gives out descriptors in order; every call of it
-- succeeds. Its world is the next descriptor.
use wasi.Prelude.{
  ℕ, ◌+◌, true, false, none, some, List, [], ◌∷◌, length, ◌++◌, inl, replicate, get_or,
}
use wasi.Abi.Errno.{deadline_exceeded}
use wasi.Abi.Filetype.{FileMode}
use wasi.Host.{Host, PollCalls, FileInfo, Io, done, failed, pos, custom}
use wasi.Clock.{ClockSource, reading}
use wasi.Config.{Config, Preopen}
use wasi.Exec.{Plugin, Params}

abbrev directory_mode : FileMode
directory_mode = record {
  is_dir = true;
  is_regular = false;
  symlink = false;
  char_device = false;
  device = false;
  socket = false;
}

abbrev info : FileInfo
info = record { mode = directory_mode; size = 0; mod_time = 0; sys = none }

abbrev next_handle : ℕ → Io ℕ × ℕ
next_handle w = (done w, w + 1)

abbrev poll_calls : PollCalls ℕ
poll_calls = record {
  is_pollable = λ stream. true;
  has_bytes = λ stream. false;
  ready = λ stream w. (true, w);
  file_stat = λ h w. (done none, w);
  file_poll = λ h events w. (done (done 1), w);
  now = λ w. (w, w);
  await = λ streams timeout w. (inl none, w);
  await_deadline = λ timeout w. (deadline_exceeded ∷ [], w);
  context_error = λ w. (none, w);
  pause = λ time w. (true, w);
}

abbrev pub small_host : Host ℕ
small_host = record {
  write = λ out bytes w. (pos (length bytes), none, w);
  write_nonblocking = λ h bytes w. (pos (length bytes), none, w);
  read = λ input n w. (pos n, none, replicate n 7, w);
  read_nonblocking = λ h n w. (pos n, none, replicate n 7, w);
  pread = λ h n off w. (n, none, replicate n 7, w);
  pwrite = λ h bytes off w. (pos (length bytes), none, w);
  close = λ h w. (none, w);
  seek = λ h off whence w. (done off, w);
  stat = λ h w. (done info, w);
  sync = λ h w. (none, w);
  fallocate = λ h off n w. (none, w);
  truncate = λ h n w. (none, w);
  get_flags = λ h w. (done 0, w);
  set_flags = λ h flags w. (none, w);
  openat2 = λ h name flags mode resolve w. next_handle w;
  openat = λ h name flags mode w. next_handle w;
  dup = λ h w. next_handle w;
  readlinkat = λ h name n w. (failed [], w);
  mkdirat = λ h name mode w. (none, w);
  linkat = λ h name k new w. (none, w);
  unlinkat = λ h name flags w. (none, w);
  renameat = λ h name k new w. (none, w);
  symlinkat = λ target h name w. (none, w);
  utimens = λ h name a m flags w. (none, w);
  read_dir = λ h n w. ([], none, w);
  abs = λ path w. (done path, w);
  open_preopen = λ path w. next_handle w;
  random = λ n w. (replicate n 4, none, w);
  poll = poll_calls;
}

abbrev clocks : ClockSource ℕ
clocks = record {
  realtime = λ w. (reading 5 1, w);
  monotonic = λ w. (reading 5 1, w);
  process_cpu = λ w. (reading 5 1, w);
  thread_cpu = λ w. (reading 5 1, w);
}

-- A mount of "/h" at "/g" that may only be read.
abbrev pub read_mount : Preopen
read_mount = record {
  guest_path = 47 ∷ 103 ∷ [];
  host_path = 47 ∷ 104 ∷ [];
  read = true;
  write = false;
  mutate_directory = false;
}

abbrev pub read_only : Config
read_only = record {
  stdin = none;
  stdout = some (custom 1);
  stderr = none;
  args = [];
  env = [];
  mounts = read_mount ∷ [];
  max_open_files = 8;
  max_iovecs = 4;
  max_subscriptions_per_poll = 4;
}

abbrev pub plugin : Plugin ℕ
plugin = record { host = small_host; clocks = clocks; cfg = read_only }

-- 64 bytes of memory; the path "a" stands at 32.
abbrev pub memory_image : List ℕ
memory_image = replicate 32 0 ++ (97 ∷ replicate 31 0)

abbrev pub words : List ℕ → Params
words p i = get_or p i 0
