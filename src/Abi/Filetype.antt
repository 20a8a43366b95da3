-- ===== src/Abi/Filetype.antt =====
-- internal/core/abi.go, `filetype`: the kind of a file from its mode bits.
use wasi.Prelude.{ℕ, Bool, if◌then◌else◌}

abbrev pub filetype_unknown : ℕ
filetype_unknown = 0

abbrev pub filetype_block_device : ℕ
filetype_block_device = 1

abbrev pub filetype_character_device : ℕ
filetype_character_device = 2

abbrev pub filetype_directory : ℕ
filetype_directory = 3

abbrev pub filetype_regular_file : ℕ
filetype_regular_file = 4

abbrev pub filetype_socket_stream : ℕ
filetype_socket_stream = 6

abbrev pub filetype_symlink : ℕ
filetype_symlink = 7

-- What the code asks of an fs.FileMode, one flag for each question.
pub record FileMode : Type 0 where
  pub is_dir : Bool
  pub is_regular : Bool
  pub symlink : Bool
  pub char_device : Bool
  pub device : Bool
  pub socket : Bool

unfoldable pub filetype : FileMode → ℕ
filetype mode =
    if mode.is_dir
    then filetype_directory
    else if mode.is_regular
    then filetype_regular_file
    else if mode.symlink
    then filetype_symlink
    else if mode.char_device
    then filetype_character_device
    else if mode.device
    then filetype_block_device
    else if mode.socket
    then filetype_socket_stream
    else filetype_unknown
