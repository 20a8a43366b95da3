-- ===== src/Fd/Stat.antt =====
-- What a guest reads and sets of a descriptor: `fdFdstatGet`, `fdPrestatGet`, `fdPrestatDirName` of
-- internal/core/core.go, and `fdFdstatSetFlags`, `fdFdstatSetRights`, `fdFilestatGet`,
-- `writeFilestat` of internal/core/fs.go with the host parts of internal/core/fs_linux.go.
use wasi.Prelude.{
  ℕ, ◌+◌, ◌*◌, ◌%◌, ◌^◌, not, ◌||◌, Option, none, some, List, [], ◌∷◌, ◌++◌, bit_and, bit_or, ltb,
  ◌==◌, length, replicate, if◌then◌else◌,
}
use wasi.Prelude.Bits.{and_not}
use wasi.Abi.Errno.{
  wasi_ebadf, wasi_einval, wasi_efault, wasi_enotsup, wasi_enametoolong, wasi_enotcapable,
}
use wasi.Abi.Rights.{right_fd_stat_set_flags, right_fd_filestat_get}
use wasi.Abi.Filetype.{filetype, filetype_character_device}
use wasi.Host.{FileInfo, Stream, os_file}
use wasi.Host.Linux.{o_append, o_nonblock}
use wasi.Memory.{valid_memory_range}
use wasi.Memory.Bytes.{le_bytes}
use wasi.Table.{FdEntry}
use wasi.Exec.{Plugin, Exec, Params, u32, u16, ◌>>=◌, ◌>>◌, pure, on_option, stop_if}
use wasi.Fd.Entry.{entry, entry_with, write_entry, memory, copy_to, host_io, host_check, stat}

-- fs_linux.go: dev, ino, nlink, atim, ctim.
unfoldable pub host_file_stat : FileInfo → ℕ × ℕ × ℕ × ℕ × ℕ
host_file_stat info = elim info.sys [
  | none ↦ (1, 1, 1, info.mod_time, info.mod_time)
  | some st ↦ (
    st.dev,
    st.ino,
    st.nlink,
    (st.atim_sec * 1000000000 + st.atim_nsec) % 2 ^ 64,
    (st.ctim_sec * 1000000000 + st.ctim_nsec) % 2 ^ 64,
  )
]

-- The 64 bytes of a Preview 1 filestat.
unfoldable pub filestat_bytes : FileInfo → List ℕ
filestat_bytes info =
    let (dev, ino, nlink, atim, ctim) = host_file_stat info in
    le_bytes 8 dev
    ++ (le_bytes 8 ino
        ++ (filetype info.mode
            ∷ (replicate 7 0
                ++ (le_bytes 8 nlink
                    ++ (le_bytes 8 info.size
                        ++ (le_bytes 8 atim ++ (le_bytes 8 info.mod_time ++ le_bytes 8 ctim)))))))

-- f.reader.(*os.File), f.writer.(*os.File)
unfoldable pub file_of_stream : Option Stream → Option ℕ
file_of_stream (some (os_file h)) = some h
file_of_stream _ = none

unfoldable pub or_else : Option ℕ → Option ℕ → Option ℕ
or_else none other = other
or_else (some h) other = some h

-- The file that `fdFdstatSetFlags` sets the flags of.
unfoldable pub flags_file : FdEntry → Option ℕ
flags_file f = or_else f.file (or_else (file_of_stream f.reader) (file_of_stream f.writer))

module _ {W : Type 0} (e : Plugin W) where
  unfoldable pub write_filestat : ℕ → FileInfo → Exec W (Unit {0})
  write_filestat ptr info = do
    mem ← memory
    stop_if (ltb (length mem) (ptr + 64)) wasi_efault
    copy_to ptr (filestat_bytes info)

  -- The file type of a descriptor: a stream is a character device.
  unfoldable pub descriptor_type : FdEntry → Exec W ℕ
  descriptor_type f =
      on_option f.file (pure filetype_character_device)
        (λ file. do info ← stat e file; pure (filetype info.mode))

  -- The 24 bytes are cleared before the file is asked for its type.
  unfoldable pub fd_fdstat_get : Params → Exec W (Unit {0})
  fd_fdstat_get p = do
    f ← entry (u32 (p 0))
    mem ← memory
    stop_if (not (valid_memory_range mem (u32 (p 1)) 24)) wasi_efault
    copy_to (u32 (p 1)) (replicate 24 0)
    kind ← descriptor_type f
    copy_to (u32 (p 1)) (kind ∷ [])
    copy_to (u32 (p 1) + 2) (le_bytes 2 f.flags)
    copy_to (u32 (p 1) + 8) (le_bytes 8 f.rights)
    copy_to (u32 (p 1) + 16) (le_bytes 8 f.inheriting)

  unfoldable pub fd_prestat_get : Params → Exec W (Unit {0})
  fd_prestat_get p = do
    f ← entry (u32 (p 0))
    stop_if (length f.preopen == 0) wasi_ebadf
    mem ← memory
    stop_if (not (valid_memory_range mem (u32 (p 1)) 8)) wasi_efault
    copy_to (u32 (p 1)) (replicate 8 0)
    copy_to (u32 (p 1) + 4) (le_bytes 4 (u32 (length f.preopen)))

  unfoldable pub fd_prestat_dir_name : Params → Exec W (Unit {0})
  fd_prestat_dir_name p = do
    f ← entry (u32 (p 0))
    stop_if (length f.preopen == 0) wasi_ebadf
    stop_if (ltb (u32 (p 2)) (u32 (length f.preopen))) wasi_enametoolong
    mem ← memory
    stop_if (ltb (length mem) (u32 (p 1) + length f.preopen)) wasi_efault
    copy_to (u32 (p 1)) f.preopen

  -- fs_linux.go: O_APPEND and O_NONBLOCK as bits 1 and 4 of the guest's flags.
  unfoldable pub set_host_file_flags : ℕ → ℕ → Exec W (Unit {0})
  set_host_file_flags file flags = do
    current ← host_io (e.host.get_flags file)
    let cleared = and_not current (bit_or o_append o_nonblock)
    let appending = if bit_and flags 1 == 0 then cleared else bit_or cleared o_append
    let blocking = if bit_and flags 4 == 0 then appending else bit_or appending o_nonblock
    host_check (e.host.set_flags file blocking)

  unfoldable pub fd_fdstat_set_flags : Params → Exec W (Unit {0})
  fd_fdstat_set_flags p = do
    f ← entry_with (u32 (p 0)) right_fd_stat_set_flags
    stop_if (not (and_not (p 1) 0x1f == 0)) wasi_einval
    stop_if (not (bit_and (u16 (p 1)) 0x1a == 0)) wasi_enotsup
    on_option (flags_file f) (stop_if (not (u16 (p 1) == 0)) wasi_enotsup)
        (λ file. set_host_file_flags file (u16 (p 1)))
    write_entry (u32 (p 0)) (record f { flags = u16 (p 1) })

  -- Rights can be given up, and not taken.
  unfoldable pub fd_fdstat_set_rights : Params → Exec W (Unit {0})
  fd_fdstat_set_rights p = do
    f ← entry (u32 (p 0))
    stop_if (not (and_not (p 1) f.rights == 0) || not (and_not (p 2) f.inheriting == 0))
        wasi_enotcapable
    write_entry (u32 (p 0)) (record f { rights = p 1; inheriting = p 2 })

  -- A stream has the metadata of a character device with one link.
  unfoldable pub fd_filestat_get : Params → Exec W (Unit {0})
  fd_filestat_get p = do
    f ← entry_with (u32 (p 0)) right_fd_filestat_get
    on_option f.file
        (do
          mem ← memory
          stop_if (ltb (length mem) (u32 (p 1) + 64)) wasi_efault
          copy_to (u32 (p 1)) (
              replicate 16 0
              ++ (filetype_character_device ∷ (replicate 7 0 ++ (le_bytes 8 1 ++ replicate 32 0)))))
        (λ file. do info ← stat e file; write_filestat (u32 (p 1)) info)
