-- ===== src/Abi/Codes.antt =====
-- `errno` of internal/core/abi.go: which codes it gives.
use wasi.Prelude.{
  ℕ, ◌≡◌, ◌≢◌, refl, Bool, true, some, Option-cases, inl, inr, List, [], ◌∷◌, not, ◌&&◌, ◌==◌,
  arith,
}
use wasi.Abi.Errno.{Error, Sentinel, platform_errno, errno_cases, first_case, errno, wasi_ok}

-- No case has the code 0.
abbrev all_nonzero : List (Sentinel × ℕ) → Bool
all_nonzero [] = true
all_nonzero ((target, code) ∷ cases) = not (code == 0) && all_nonzero cases

first_case-nonzero :
    (error : Error) (cases : List (Sentinel × ℕ))
    → all_nonzero cases ≡ true
    → first_case error cases ≢ 0
unfolding first_case
first_case-nonzero error [] all = λ h. absurd (omega arith)
first_case-nonzero error ((target, code) ∷ cases) all =
    ground (arith, first_case-nonzero error cases)

platform-nonzero : (error : Error) (code : ℕ) → platform_errno error ≡ some code → code ≢ 0
unfolding platform_errno
platform-nonzero error code h = ground arith

-- `errno` is the code of success for a call without an error, and for no other.
pub errno-ok : (error : Error) → errno (some error) ≢ wasi_ok
unfolding errno
errno-ok error = elim (Option-cases (platform_errno error)) [
  | inl nothing ↦ rw (nothing, errno) (first_case-nonzero error errno_cases refl)
  | inr (code, found) ↦ rw (found, errno) (platform-nonzero error code found)
]
