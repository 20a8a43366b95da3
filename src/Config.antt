-- ===== src/Config.antt =====
-- The resolved configuration of internal/core/core.go (`Config`, `Preopen`). Its clocks stand in
-- `Plugin` (Exec), beside the host.
pub mod Resolve
pub mod Bounded
pub mod Surrogates
pub mod Escapes
pub mod Shape
use wasi.Prelude.{ℕ, Bool, List, Option}
use wasi.Host.{Bytes, Stream}

pub record Preopen : Type 0 where
  pub guest_path : Bytes
  pub host_path : Bytes
  pub read : Bool
  pub write : Bool
  pub mutate_directory : Bool

-- A nil reader or writer is `none`.
pub record Config : Type 0 where
  pub stdin : Option Stream
  pub stdout : Option Stream
  pub stderr : Option Stream
  pub args : List Bytes
  pub env : List Bytes
  pub mounts : List Preopen
  pub max_open_files : ℕ
  pub max_iovecs : ℕ
  pub max_subscriptions_per_poll : ℕ
