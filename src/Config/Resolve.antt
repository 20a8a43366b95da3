-- ===== src/Config/Resolve.antt =====
-- internal/core/core.go: `configFromPluginConfig` with the validation of its parts, and
-- `cloneConfig`. The texts of errors are left out: a configuration that is refused is `none`.
use wasi.Prelude.{
  ℕ, Bool, true, false, not, ◌&&◌, ◌||◌, List, [], ◌∷◌, Option, none, some, length, ltb, ◌==◌,
  if◌then◌else◌,
}
use wasi.Host.{Bytes, Stream, os_file, custom}
use wasi.Memory.{has_nul}
use wasi.Paths.{bytes_eq, starts_with_slash}
use wasi.Text.Utf8.{rune_count}
use wasi.Text.Clean.{clean}
use wasi.Config.{Config, Preopen}

-- A field that the configuration does not give is a nil pointer.
pub record PluginConfig : Type 0 where
  pub stdin : Option Bytes
  pub stdout : Option Bytes
  pub stderr : Option Bytes
  pub env : Option (List Bytes)
  pub mounts : Option (List Preopen)
  pub max_open_files : Option ℕ
  pub max_iovecs : Option ℕ
  pub max_subscriptions : Option ℕ

-- "inherit", "eof", "discard"
abbrev pub inherit : Bytes
inherit = 105 ∷ 110 ∷ 104 ∷ 101 ∷ 114 ∷ 105 ∷ 116 ∷ []

abbrev pub eof : Bytes
eof = 101 ∷ 111 ∷ 102 ∷ []

abbrev pub discard : Bytes
discard = 100 ∷ 105 ∷ 115 ∷ 99 ∷ 97 ∷ 114 ∷ 100 ∷ []

-- io.Discard, a writer that is no file.
abbrev pub discarding : Stream
discarding = custom 0

unfoldable pub apply_input_mode : Option Stream → Option Bytes → Option (Option Stream)
unfolding bytes_eq
apply_input_mode stdin none = some stdin
apply_input_mode stdin (some mode) =
    if bytes_eq mode inherit then some stdin else if bytes_eq mode eof then some none else none

unfoldable pub apply_output_mode : Option Stream → Option Bytes → Option (Option Stream)
unfolding bytes_eq
apply_output_mode dst none = some dst
apply_output_mode dst (some mode) =
    if bytes_eq mode inherit
    then some dst
    else if bytes_eq mode discard
    then some (some discarding)
    else none

-- The part before the first "="; none without one.
unfoldable pub name_of : Bytes → Option Bytes
name_of [] = none
name_of (c ∷ s) =
    if c == 61 then some [] else elim (name_of s) [ none ↦ none | some name ↦ some (c ∷ name) ]

abbrev pub is_name : Option Bytes → Bool
is_name none = false
is_name (some []) = false
is_name (some (c ∷ s)) = true

unfoldable pub valid_entry : Bytes → Bool
unfolding name_of has_nul rune_count
valid_entry entry =
    is_name (name_of entry) && (not (has_nul entry) && not (ltb 32768 (rune_count entry)))

abbrev pub all_valid : (Bytes → Bool) → List Bytes → Bool
all_valid valid [] = true
all_valid valid (entry ∷ entries) = valid entry && all_valid valid entries

unfoldable pub resolve_env : Option (List Bytes) → Option (List Bytes)
unfolding valid_entry
resolve_env none = some []
resolve_env (some env) =
    if ltb 4096 (length env) then none else if all_valid valid_entry env then some env else none

-- A path that stays as it is when cleaned, and begins at the root.
unfoldable pub valid_path : Bytes → Bool
unfolding bytes_eq clean has_nul rune_count
valid_path path =
    not (ltb 4096 (rune_count path))
    && (starts_with_slash path && (bytes_eq (clean path) path && not (has_nul path)))

unfoldable pub validate_mount : Preopen → Bool
unfolding valid_path
validate_mount mount = valid_path mount.guest_path && valid_path mount.host_path

unfoldable pub is_seen : Bytes → List Bytes → Bool
unfolding bytes_eq
is_seen path [] = false
is_seen path (other ∷ seen) = bytes_eq other path || is_seen path seen

-- `seen` holds the guest paths before these.
unfoldable pub valid_mounts : List Bytes → List Preopen → Bool
unfolding validate_mount is_seen
valid_mounts seen [] = true
valid_mounts seen (mount ∷ mounts) =
    validate_mount mount
    && (not (is_seen mount.guest_path seen) && valid_mounts (mount.guest_path ∷ seen) mounts)

unfoldable pub resolve_mounts : Option (List Preopen) → Option (List Preopen)
unfolding valid_mounts
resolve_mounts none = some []
resolve_mounts (some mounts) =
    if ltb 64 (length mounts) then none else if valid_mounts [] mounts then some mounts else none

-- A limit between `least` and 65536, or 1024 where it is not given.
unfoldable pub resolve_limit : ℕ → Option ℕ → Option ℕ
resolve_limit least none = some 1024
resolve_limit least (some n) = if ltb n least || ltb 65536 n then none else some n

-- The stages in the source's order, each after those before it have passed.
infixl 10 ◌>>=◌
abbrev pub ◌>>=◌ : {A B : Type 0} → Option A → (A → Option B) → Option B
none >>= f = none
some a >>= f = f a

unfoldable pub config_from_plugin_config : PluginConfig → Option Config
unfolding apply_input_mode apply_output_mode resolve_env resolve_mounts resolve_limit
config_from_plugin_config cfg = do
  stdin ← apply_input_mode (some (os_file 0)) cfg.stdin
  stdout ← apply_output_mode (some (os_file 1)) cfg.stdout
  stderr ← apply_output_mode (some (os_file 2)) cfg.stderr
  env ← resolve_env cfg.env
  mounts ← resolve_mounts cfg.mounts
  max_open_files ← resolve_limit 3 cfg.max_open_files
  max_iovecs ← resolve_limit 1 cfg.max_iovecs
  max_subscriptions ← resolve_limit 1 cfg.max_subscriptions
  some (record {
    stdin = stdin;
    stdout = stdout;
    stderr = stderr;
    args = [];
    env = env;
    mounts = mounts;
    max_open_files = max_open_files;
    max_iovecs = max_iovecs;
    max_subscriptions_per_poll = max_subscriptions;
  })

-- The copies of the slices are the slices; the clocks and the context are not part of the record.
unfoldable pub clone_config : Config → Config
clone_config cfg = record cfg {
  max_iovecs = if cfg.max_iovecs == 0 then 1024 else cfg.max_iovecs;
  max_subscriptions_per_poll =
      if cfg.max_subscriptions_per_poll == 0 then 1024 else cfg.max_subscriptions_per_poll;
}
