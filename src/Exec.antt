-- ===== src/Exec.antt =====
-- A call of the guest: it reads and writes the caller's descriptor table, its memory and the host's
-- world, and ends with a value, with a WASI error code, or by leaving the program. What was written
-- before an error stays written.
--
-- The source threads a variable `code` through its handlers and runs each step under `code == 0`;
-- the steps of a do block run under the same condition.
pub mod Keeps
pub mod Gives
pub mod Needs
use wasi.Prelude.{
  ℕ, ◌%◌, ◌^◌, Bool, true, false, Option, none, some, ◌⊎◌, inl, inr, ◌==◌, if◌then◌else◌,
}
use wasi.Abi.Errno.{wasi_ok, wasi_efault}
use wasi.Host.{Host}
use wasi.Clock.{ClockSource}
use wasi.Config.{Config}
use wasi.Memory.{Mem}
use wasi.Table.{FsState}

-- The receiver `e *Plugin` of a handler: what it reads and never writes.
pub record Plugin (W : Type 0) : Type 0 where
  pub host : Host W
  pub clocks : ClockSource W
  pub cfg : Config

pub record Machine (W : Type 0) : Type 0 where
  pub fs : FsState
  pub mem : Mem
  pub world : W

-- `exit` is panic(wago.HostExit{...}); `unfinished` is a loop that goes on after the rounds that it
-- was given.
pub data Result (A : Type 0) : Type 0 where
  ok : A → Result A
  err : ℕ → Result A
  exit : ℕ → Result A
  unfinished : Result A

abbrev pub Exec : Type 0 → Type 0 → Type 0
Exec W A = Machine W → Result A × Machine W

module _ {W A : Type 0} where
  unfoldable pub pure : A → Exec W A
  pure a s = (ok a, s)

  unfoldable pub fail : ℕ → Exec W A
  fail code s = (err code, s)

  unfoldable pub leave : ℕ → Exec W A
  leave code s = (exit code, s)

  -- A loop that is out of rounds.
  unfoldable pub go_on : Exec W A
  go_on s = (unfinished, s)

  -- A call of the host.
  unfoldable pub host : (W → A × W) → Exec W A
  host call s = let (a, w) = call s.world in (ok a, record s { world = w })

  -- A value or an error code, computed before any step on the machine.
  unfoldable pub lift : ℕ ⊎ A → Exec W A
  lift (inl code) s = (err code, s)
  lift (inr a) s = (ok a, s)

  unfoldable pub gets : (Machine W → A) → Exec W A
  gets f s = (ok (f s), s)

module _ {W A B : Type 0} where
  -- A call of the host that returns two values.
  unfoldable pub host_pair : (W → A × B × W) → Exec W (A × B)
  host_pair call s = let (a, b, w) = call s.world in (ok (a, b), record s { world = w })

  -- if o == nil { none_case } else { some_case(*o) }
  unfoldable pub on_option : Option A → Exec W B → (A → Exec W B) → Exec W B
  on_option none none_case some_case = none_case
  on_option (some a) none_case some_case = some_case a

module _ {W A B C : Type 0} where
  unfoldable pub host_triple : (W → A × B × C × W) → Exec W (A × B × C)
  host_triple call s = let (a, b, c, w) = call s.world in (ok (a, b, c), record s { world = w })

module _ {W A B : Type 0} where
  abbrev pub continue : Result A → (A → Exec W B) → Exec W B
  continue (ok a) f s = f a s
  continue (err code) f s = (err code, s)
  continue (exit code) f s = (exit code, s)
  continue unfinished f s = (unfinished, s)

  infixl 10 ◌>>=◌ ◌>>◌
  unfoldable pub ◌>>=◌ : Exec W A → (A → Exec W B) → Exec W B
  unfolding pure fail leave go_on host host_pair host_triple lift gets
  ◌>>=◌ m f s = let (r, s') = m s in continue r f s'

  unfoldable pub ◌>>◌ : Exec W A → Exec W B → Exec W B
  m >> n = m >>= λ _. n

module _ {W A : Type 0} where
  -- Runs a call for its code or its value, and goes on.
  unfoldable pub attempt : Exec W A → Exec W (ℕ ⊎ A)
  attempt m s =
      let (r, s') = m s in
      elim r [
        | ok a ↦ (ok (inr a), s')
        | err code ↦ (ok (inl code), s')
        | exit code ↦ (exit code, s')
        | unfinished ↦ (unfinished, s')
      ]

  -- What is run after a call that did not succeed; its own result is dropped.
  unfoldable pub on_error : Exec W A → Exec W (Unit {0}) → Exec W A
  on_error m cleanup s =
      let (r, s') = m s in
      elim r [
        | ok a ↦ (ok a, s')
        | err code ↦ (err code, (cleanup s').1)
        | exit code ↦ (exit code, s')
        | unfinished ↦ (unfinished, s')
      ]

module _ {W A B : Type 0} where
  -- if code != 0 { ... } else { ... } after a call that was attempted.
  unfoldable pub on_result : ℕ ⊎ A → (ℕ → Exec W B) → (A → Exec W B) → Exec W B
  on_result (inl code) failed_case done_case = failed_case code
  on_result (inr a) failed_case done_case = done_case a

module _ {W : Type 0} where
  -- Stops the call unless the code is `wasiOK`.
  unfoldable pub check : ℕ → Exec W (Unit {0})
  unfolding pure fail
  check code = if code == wasi_ok then pure tt else fail code

  -- if test { code = ... }
  unfoldable pub stop_if : Bool → ℕ → Exec W (Unit {0})
  unfolding pure fail
  stop_if true code = fail code
  stop_if false code = pure tt

  unfoldable pub put_mem : Mem → Exec W (Unit {0})
  put_mem mem s = (ok tt, record s { mem = mem })

  unfoldable pub put_fs : FsState → Exec W (Unit {0})
  put_fs fs s = (ok tt, record s { fs = fs })

  -- if !putLe(...) { code = wasiEFault }
  unfoldable pub store : (Mem → Option Mem) → Exec W (Unit {0})
  store write s = elim (write s.mem) [
    | none ↦ (err wasi_efault, s)
    | some mem ↦ (ok tt, record s { mem = mem })
  ]

-- The code that a call leaves in r[0]; none for a call that does not return.
abbrev pub code_of : {A : Type 0} → Result A → Option ℕ
code_of (ok _) = some wasi_ok
code_of (err code) = some code
code_of (exit _) = none
code_of unfinished = none

-- `p []uint64`, the parameters of a handler.
abbrev pub Params : Type 0
Params = ℕ → ℕ

-- uint32(v), uint16(v)
abbrev pub u32 : ℕ → ℕ
u32 v = v % 2 ^ 32

abbrev pub u16 : ℕ → ℕ
u16 v = v % 2 ^ 16

abbrev pub max_int64 : ℕ
max_int64 = 0x7fff_ffff_ffff_ffff
