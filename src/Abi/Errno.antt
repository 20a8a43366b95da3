-- ===== src/Abi/Errno.antt =====
-- internal/core/abi.go, `errno`, over the errors of a Unix host (internal/core/abi_unix.go).
-- An error is the chain of values that errors.Is walks; the values that the code compares with are
-- the constructors of `Sentinel`. How an operating-system number answers to os.ErrPermission,
-- os.ErrNotExist and os.ErrExist is Go's syscall.Errno.Is.
use wasi.Prelude.{ℕ, Bool, true, false, ◌||◌, Option, none, some, List, [], ◌∷◌, if◌then◌else◌}
use mathlib.Core.Bool.{decide}

abbrev pub wasi_ok : ℕ
wasi_ok = 0

abbrev pub wasi_e2big : ℕ
wasi_e2big = 1

abbrev pub wasi_eacces : ℕ
wasi_eacces = 2

abbrev pub wasi_eagain : ℕ
wasi_eagain = 6

abbrev pub wasi_ebadf : ℕ
wasi_ebadf = 8

abbrev pub wasi_ebusy : ℕ
wasi_ebusy = 10

abbrev pub wasi_edquot : ℕ
wasi_edquot = 19

abbrev pub wasi_eexist : ℕ
wasi_eexist = 20

abbrev pub wasi_efault : ℕ
wasi_efault = 21

abbrev pub wasi_efbig : ℕ
wasi_efbig = 22

abbrev pub wasi_eintr : ℕ
wasi_eintr = 27

abbrev pub wasi_einval : ℕ
wasi_einval = 28

abbrev pub wasi_eio : ℕ
wasi_eio = 29

abbrev pub wasi_eisdir : ℕ
wasi_eisdir = 31

abbrev pub wasi_eloop : ℕ
wasi_eloop = 32

abbrev pub wasi_emfile : ℕ
wasi_emfile = 33

abbrev pub wasi_enametoolong : ℕ
wasi_enametoolong = 37

abbrev pub wasi_enfile : ℕ
wasi_enfile = 41

abbrev pub wasi_enoent : ℕ
wasi_enoent = 44

abbrev pub wasi_enomem : ℕ
wasi_enomem = 48

abbrev pub wasi_enospc : ℕ
wasi_enospc = 51

abbrev pub wasi_enosys : ℕ
wasi_enosys = 52

abbrev pub wasi_enotdir : ℕ
wasi_enotdir = 54

abbrev pub wasi_enotempty : ℕ
wasi_enotempty = 55

abbrev pub wasi_enotsock : ℕ
wasi_enotsock = 57

abbrev pub wasi_enotsup : ℕ
wasi_enotsup = 58

abbrev pub wasi_eoverflow : ℕ
wasi_eoverflow = 61

abbrev pub wasi_eperm : ℕ
wasi_eperm = 63

abbrev pub wasi_epipe : ℕ
wasi_epipe = 64

abbrev pub wasi_erofs : ℕ
wasi_erofs = 69

abbrev pub wasi_espipe : ℕ
wasi_espipe = 70

abbrev pub wasi_exdev : ℕ
wasi_exdev = 75

abbrev pub wasi_enotcapable : ℕ
wasi_enotcapable = 76

-- The values that errors.Is is asked about; `other` is any error that the code never names.
pub data Sentinel : Type 0 where
  eperm e2big eacces eagain eintr enospc edquot enomem emfile enfile efbig eoverflow : Sentinel
  ebusy epipe exdev enoent enotempty eexist ebadf einval eisdir enotdir eloop : Sentinel
  enametoolong erofs espipe enotsup enosys : Sentinel
  err_permission err_not_exist err_exist eof short_write no_progress other : Sentinel
  err_would_block canceled deadline_exceeded poll_unsupported : Sentinel

pub Sentinel-discrete : Discrete Sentinel
Sentinel-discrete = hlevel

-- A non-nil error: itself, and what it wraps.
abbrev pub Error : Type 0
Error = List Sentinel

-- syscall.Errno.Is for the targets of package os; any other value answers to itself alone.
abbrev stands_for : Sentinel → Sentinel → Bool
stands_for eperm err_permission = true
stands_for eacces err_permission = true
stands_for eexist err_exist = true
stands_for enotempty err_exist = true
stands_for enoent err_not_exist = true
stands_for _ _ = false

unfoldable pub is : Error → Sentinel → Bool
unfolding Sentinel-discrete
is [] target = false
is (e ∷ chain) target =
    decide (Sentinel-discrete e target) || (stands_for e target || is chain target)

-- abi_unix.go
unfoldable pub platform_errno : Error → Option ℕ
unfolding is
platform_errno e =
    if is e enotsup then some wasi_enotsup else if is e enosys then some wasi_enosys else none

-- The switch of `errno`, its cases in order.
abbrev pub errno_cases : List (Sentinel × ℕ)
errno_cases =
    (eperm, wasi_eperm)
    ∷ (e2big, wasi_e2big)
    ∷ (err_permission, wasi_eacces)
    ∷ (eacces, wasi_eacces)
    ∷ (eagain, wasi_eagain)
    ∷ (eintr, wasi_eintr)
    ∷ (enospc, wasi_enospc)
    ∷ (edquot, wasi_edquot)
    ∷ (enomem, wasi_enomem)
    ∷ (emfile, wasi_emfile)
    ∷ (enfile, wasi_enfile)
    ∷ (efbig, wasi_efbig)
    ∷ (eoverflow, wasi_eoverflow)
    ∷ (ebusy, wasi_ebusy)
    ∷ (epipe, wasi_epipe)
    ∷ (exdev, wasi_exdev)
    ∷ (err_not_exist, wasi_enoent)
    ∷ (enoent, wasi_enoent)
    ∷ (enotempty, wasi_enotempty)
    ∷ (err_exist, wasi_eexist)
    ∷ (eexist, wasi_eexist)
    ∷ (ebadf, wasi_ebadf)
    ∷ (einval, wasi_einval)
    ∷ (eisdir, wasi_eisdir)
    ∷ (enotdir, wasi_enotdir)
    ∷ (eloop, wasi_eloop)
    ∷ (enametoolong, wasi_enametoolong)
    ∷ (erofs, wasi_erofs)
    ∷ (espipe, wasi_espipe)
    ∷ []

-- The first case whose error matches; `wasiEIo` by default.
unfoldable pub first_case : Error → List (Sentinel × ℕ) → ℕ
unfolding is
first_case e [] = wasi_eio
first_case e ((target, code) ∷ cases) =
    let rest = first_case e cases in if is e target then code else rest

unfoldable pub errno : Option Error → ℕ
unfolding platform_errno first_case
errno none = wasi_ok
errno (some e) = elim (platform_errno e) [ some code ↦ code | none ↦ first_case e errno_cases ]
