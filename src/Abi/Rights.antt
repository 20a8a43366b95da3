-- ===== src/Abi/Rights.antt =====
-- internal/core/abi.go: the rights of Preview 1 as bits of a 64-bit word, and the groups that a
-- mount grants.
use wasi.Prelude.{ℕ, ◌-◌, ◌^◌, bit_or, List, [], ◌∷◌}

-- a | b | ...
abbrev pub union : List ℕ → ℕ
union [] = 0
union (r ∷ rs) = bit_or r (union rs)

abbrev pub right_fd_data_sync : ℕ
right_fd_data_sync = 2 ^ 0

abbrev pub right_fd_read : ℕ
right_fd_read = 2 ^ 1

abbrev pub right_fd_seek : ℕ
right_fd_seek = 2 ^ 2

abbrev pub right_fd_stat_set_flags : ℕ
right_fd_stat_set_flags = 2 ^ 3

abbrev pub right_fd_sync : ℕ
right_fd_sync = 2 ^ 4

abbrev pub right_fd_tell : ℕ
right_fd_tell = 2 ^ 5

abbrev pub right_fd_write : ℕ
right_fd_write = 2 ^ 6

abbrev pub right_fd_advise : ℕ
right_fd_advise = 2 ^ 7

abbrev pub right_fd_allocate : ℕ
right_fd_allocate = 2 ^ 8

abbrev pub right_path_create_directory : ℕ
right_path_create_directory = 2 ^ 9

abbrev pub right_path_create_file : ℕ
right_path_create_file = 2 ^ 10

abbrev pub right_path_link_source : ℕ
right_path_link_source = 2 ^ 11

abbrev pub right_path_link_target : ℕ
right_path_link_target = 2 ^ 12

abbrev pub right_path_open : ℕ
right_path_open = 2 ^ 13

abbrev pub right_fd_read_dir : ℕ
right_fd_read_dir = 2 ^ 14

abbrev pub right_path_readlink : ℕ
right_path_readlink = 2 ^ 15

abbrev pub right_path_rename_source : ℕ
right_path_rename_source = 2 ^ 16

abbrev pub right_path_rename_target : ℕ
right_path_rename_target = 2 ^ 17

abbrev pub right_path_filestat_get : ℕ
right_path_filestat_get = 2 ^ 18

abbrev pub right_path_filestat_set_size : ℕ
right_path_filestat_set_size = 2 ^ 19

abbrev pub right_path_filestat_set_times : ℕ
right_path_filestat_set_times = 2 ^ 20

abbrev pub right_fd_filestat_get : ℕ
right_fd_filestat_get = 2 ^ 21

abbrev pub right_fd_filestat_set_size : ℕ
right_fd_filestat_set_size = 2 ^ 22

abbrev pub right_fd_filestat_set_times : ℕ
right_fd_filestat_set_times = 2 ^ 23

abbrev pub right_path_symlink : ℕ
right_path_symlink = 2 ^ 24

abbrev pub right_path_remove_directory : ℕ
right_path_remove_directory = 2 ^ 25

abbrev pub right_path_unlink_file : ℕ
right_path_unlink_file = 2 ^ 26

abbrev pub right_poll_fd_read_write : ℕ
right_poll_fd_read_write = 2 ^ 27

abbrev pub right_sock_shutdown : ℕ
right_sock_shutdown = 2 ^ 28

abbrev pub all_rights : ℕ
all_rights = 2 ^ 29 - 1

abbrev pub directory_rights : ℕ
directory_rights = union (
    right_path_create_directory ∷ right_path_create_file ∷ right_path_link_source
    ∷ right_path_link_target ∷ right_path_open ∷ right_fd_read_dir ∷ right_path_readlink
    ∷ right_path_rename_source ∷ right_path_rename_target ∷ right_path_filestat_get
    ∷ right_path_filestat_set_size ∷ right_path_filestat_set_times ∷ right_fd_filestat_get
    ∷ right_fd_filestat_set_times ∷ right_path_symlink ∷ right_path_remove_directory
    ∷ right_path_unlink_file ∷ [])

abbrev pub directory_read_rights : ℕ
directory_read_rights = union (
    right_path_open ∷ right_fd_read_dir ∷ right_path_readlink ∷ right_path_filestat_get
    ∷ right_fd_filestat_get ∷ right_poll_fd_read_write ∷ [])

abbrev pub file_read_rights : ℕ
file_read_rights = union (
    right_fd_read ∷ right_fd_seek ∷ right_fd_tell ∷ right_fd_advise ∷ right_fd_filestat_get
    ∷ right_poll_fd_read_write ∷ [])

abbrev pub file_write_rights : ℕ
file_write_rights = union (
    right_fd_write ∷ right_fd_data_sync ∷ right_fd_sync ∷ right_fd_stat_set_flags
    ∷ right_fd_allocate ∷ right_fd_filestat_set_size ∷ right_fd_filestat_set_times
    ∷ right_poll_fd_read_write ∷ [])

abbrev pub directory_mutation_rights : ℕ
directory_mutation_rights = union (
    right_path_create_directory ∷ right_path_create_file ∷ right_path_link_source
    ∷ right_path_link_target ∷ right_path_rename_source ∷ right_path_rename_target
    ∷ right_path_symlink ∷ right_path_remove_directory ∷ right_path_unlink_file ∷ [])
