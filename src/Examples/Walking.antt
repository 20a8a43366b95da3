-- ===== src/Examples/Walking.antt =====
-- The walks by components on a host without openat2 (internal/core/fs_linux.go and p2/path.go): each
-- step opens the next descriptor.
use mathlib.Core.Bool.{decide}
use wasi.Prelude.{ℕ, true, none, ◌+◌, ◌≤◌, ◌≡◌, refl, [], ◌∷◌, arith}
use wasi.Abi.Errno
use wasi.Abi.Errno.{enosys}
use wasi.Host.{Host, Bytes, Io, done, failed}
use wasi.Host.Linux.{o_nofollow}
use wasi.Exec
use wasi.Exec.{Plugin, Machine, Result, ok}
use wasi.Paths
use wasi.Fd.Entry
use wasi.Walk
use wasi.Walk.{open_at}
use wasi.Walk.Confined.{Confining, open_at-Inside}
use wasi.Text.Clean
use wasi.Under
use wasi.Under.{File, opened, Request, walk_under, open_under_path_flags}
use wasi.Under.Ends.{walk_under-finished}
use wasi.Under.Falls.{is_finished}
use wasi.Under.Confined.{open_under_path_flags-Inside}
use wasi.Examples.Setting.{plugin, small_host}
use wasi.Examples.Runs.{guest}

abbrev walking_host : Host ℕ
walking_host = record small_host {
  dup = λ h w. (done h, w);
  openat = λ h name flags mode w. (done (h + 1), w);
  openat2 = λ h name flags mode resolve w. (failed (enosys ∷ []), w);
}

abbrev walking : Plugin ℕ
walking = record plugin { host = walking_host }

abbrev FromRoot : ℕ → Type 0
FromRoot fd = 100 ≤ fd

opened_value : (a b : ℕ) (w w' : ℕ) → (◌≡◌ {A = Io ℕ × ℕ} (done a, w) (done b, w')) → a ≡ b
opened_value a b w w' e = cc

walking-Confining : Confining walking_host FromRoot
walking-Confining = record {
  dup = λ fd k w w' inside e. omega (arith, opened_value fd k w w' e);
  openat =
      λ fd k name flags mode w w' inside single e. omega (arith, opened_value (fd + 1) k w w' e);
  openat2 = λ fd k name flags mode w w' inside e. absurd (cc);
}

-- "a/../b"
abbrev path : Bytes
path = 97 ∷ 47 ∷ 46 ∷ 46 ∷ 47 ∷ 98 ∷ []

walked : open_at walking 100 path o_nofollow 0 guest ≡ (ok 101, guest)
unfolding open_at Exec.◌>>=◌ Exec.◌>>◌ Exec.host Exec.pure Exec.fail Exec.lift Exec.stop_if
    Walk.on_io Walk.falls_back Walk.open_at_walk Walk.open_at_walk_fd Walk.walk_loop Walk.closing
    Walk.close_all_fds Walk.open_last Walk.open_leaf Walk.capability_code Walk.has_parent_step
    Walk.moves_with Errno.is Entry.io_code Paths.bytes_eq Paths.path_escapes Paths.escapes_from
    Paths.moves_of Paths.move_of Paths.split Paths.extend_first decide
walked = refl

open_at-Inside_example : FromRoot 101
open_at-Inside_example =
    open_at-Inside walking FromRoot walking-Confining 100 path o_nofollow 0 guest guest 101
      (omega arith) walked

abbrev base : File
base = record { fd = 100; name = 47 ∷ [] }

-- Behind the parent step the name is "./b".
abbrev below : File
below = record { fd = 101; name = 47 ∷ 47 ∷ 46 ∷ 47 ∷ 98 ∷ [] }

descended : open_under_path_flags walking_host 2 base path 0 0 1 0 ≡ (opened below, 0)
unfolding open_under_path_flags Under.platform_open_under_path_flags Under.after_openat2
    Under.open_under_walk Under.walk_under Under.walk_rounds Under.walk_from Under.resolve
    Under.walk_parts Under.entered Under.last_part Under.last_turn Under.opened_turn Under.shut
    Under.parent_turn Under.parts_of Under.descriptor_file_name Under.has_zero Walk.falls_back
    Walk.moves_with Clean.clean Clean.dir Paths.split_last Paths.extend_before Errno.is
    Paths.bytes_eq Paths.move_of Paths.split Paths.extend_first decide
descended = refl

open_under_path_flags-Inside_example : FromRoot 101
open_under_path_flags-Inside_example =
    open_under_path_flags-Inside walking_host FromRoot walking-Confining 2 base (omega arith) path 0
      0 1 0 0 below descended

abbrev request : Request ℕ
request = record { base = base; flags = 0; mode = 0; follow = true; stat_leaf = none }

walk_under-finished_example :
    (rounds : ℕ) × ((more : ℕ)
      → is_finished (walk_under walking_host (rounds + more) request path 0).0 ≡ true)
walk_under-finished_example = walk_under-finished walking_host request path 0
