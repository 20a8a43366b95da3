-- ===== src/Config/Bounded.antt =====
-- internal/core/core.go, `configFromPluginConfig`: what a configuration that it accepts is like.
use wasi.Prelude.{
  ◌≡◌, ◌≢◌, refl, ap, subst, ℕ, ◌≤◌, true, false, List, [], ◌∷◌, Option, none, some, length, All,
  from_option, arith,
}
use wasi.Host.{Bytes, Stream}
use wasi.Memory.{has_nul}
use wasi.Paths.{bytes_eq, starts_with_slash}
use wasi.Paths.Leaf.{bytes_eq→eq}
use wasi.Text.Clean.{clean}
use wasi.Config.{Config, Preopen}
use wasi.Config.Resolve.{
  PluginConfig, apply_input_mode, apply_output_mode, name_of, is_name, valid_entry, all_valid,
  resolve_env, valid_path, validate_mount, is_seen, valid_mounts, resolve_mounts, resolve_limit,
  config_from_plugin_config, clone_config, ◌>>=◌,
}

-- A variable of the environment: NAME=value, without a zero byte.
abbrev pub IsVariable : Bytes → Type 0
IsVariable entry = (is_name (name_of entry) ≡ true) × (has_nul entry ≡ false)

-- An absolute path without empty, "." and ".." parts, a final slash, or a zero byte.
abbrev pub IsCleanPath : Bytes → Type 0
IsCleanPath path = (starts_with_slash path ≡ true) × (clean path ≡ path) × (has_nul path ≡ false)

abbrev pub IsMount : Preopen → Type 0
IsMount mount = IsCleanPath mount.guest_path × IsCleanPath mount.host_path

abbrev pub guest_paths : List Preopen → List Bytes
guest_paths [] = []
guest_paths (mount ∷ mounts) = mount.guest_path ∷ guest_paths mounts

abbrev pub Distinct : List Bytes → Type 0
Distinct [] = Unit
Distinct (path ∷ paths) = All (λ other. path ≢ other) paths × Distinct paths

pub record IsBounded (cfg : Config) : Type 0 where
  pub files : (3 ≤ cfg.max_open_files) × (cfg.max_open_files ≤ 65536)
  pub iovecs : (1 ≤ cfg.max_iovecs) × (cfg.max_iovecs ≤ 65536)
  pub subscriptions :
      (1 ≤ cfg.max_subscriptions_per_poll) × (cfg.max_subscriptions_per_poll ≤ 65536)
  pub env : (length cfg.env ≤ 4096) × All IsVariable cfg.env
  pub mounts : (length cfg.mounts ≤ 64) × All IsMount cfg.mounts
  pub distinct : Distinct (guest_paths cfg.mounts)

bytes_eq_self : (s : Bytes) → bytes_eq s s ≡ true
unfolding bytes_eq
bytes_eq_self [] = refl
bytes_eq_self (c ∷ s) = ground (arith, bytes_eq_self s)

resolve_limit-some :
    (least n : ℕ) (given : Option ℕ)
    → least ≤ 1024
    → resolve_limit least given ≡ some n
    → (least ≤ n) × (n ≤ 65536)
unfolding resolve_limit
resolve_limit-some least n given small h = ground arith

all_valid-All : (env : List Bytes) → all_valid valid_entry env ≡ true → All IsVariable env
unfolding valid_entry
all_valid-All [] h = tt
all_valid-All (entry ∷ env) h = (ground arith, all_valid-All env (ground arith))

resolve_env-some :
    (given : Option (List Bytes)) (env : List Bytes)
    → resolve_env given ≡ some env
    → (length env ≤ 4096) × All IsVariable env
unfolding resolve_env
resolve_env-some none env h = ground arith
resolve_env-some (some given) env h = ground (arith, all_valid-All given)

valid_path-IsCleanPath : (path : Bytes) → valid_path path ≡ true → IsCleanPath path
unfolding valid_path
valid_path-IsCleanPath path h = ground (arith, bytes_eq→eq (clean path) path)

abbrev NotAmong : List Bytes → Bytes → Type 0
NotAmong seen path = All (λ other. other ≢ path) seen

is_seen-false : (path : Bytes) (seen : List Bytes) → is_seen path seen ≡ false → NotAmong seen path
unfolding is_seen
is_seen-false path [] h = tt
is_seen-false path (other ∷ seen) h =
    (λ same. absurd (differs same (ground arith)), is_seen-false path seen (ground arith))
  where
    differs : other ≡ path → bytes_eq other path ≡ false → ⊥
    differs same no_match = ground (arith, bytes_eq_self path)

-- What `valid_mounts` says of mounts that follow those with the paths `seen`.
valid_mounts-IsMount :
    (seen : List Bytes) (mounts : List Preopen)
    → valid_mounts seen mounts ≡ true
    → All IsMount mounts
unfolding valid_mounts validate_mount
valid_mounts-IsMount seen [] h = tt
valid_mounts-IsMount seen (mount ∷ mounts) h = (
  (
    valid_path-IsCleanPath mount.guest_path (ground arith),
    valid_path-IsCleanPath mount.host_path (ground arith),
  ),
  valid_mounts-IsMount (mount.guest_path ∷ seen) mounts (ground arith),
)

valid_mounts-new :
    (seen : List Bytes) (mounts : List Preopen) (path : Bytes)
    → is_seen path seen ≡ true
    → valid_mounts seen mounts ≡ true
    → All (λ other. path ≢ other) (guest_paths mounts)
unfolding valid_mounts is_seen
valid_mounts-new seen [] path among h = tt
valid_mounts-new seen (mount ∷ mounts) path among h = (
  λ same. clash same,
  valid_mounts-new (mount.guest_path ∷ seen) mounts path (ground arith) (ground arith),
)
  where
    clash : path ≡ mount.guest_path → ⊥
    clash same = ground (arith, ap (λ t. is_seen t seen) same)

valid_mounts-Distinct :
    (seen : List Bytes) (mounts : List Preopen)
    → valid_mounts seen mounts ≡ true
    → Distinct (guest_paths mounts)
unfolding valid_mounts is_seen
valid_mounts-Distinct seen [] h = tt
valid_mounts-Distinct seen (mount ∷ mounts) h = (
  valid_mounts-new (mount.guest_path ∷ seen) mounts mount.guest_path
      (ground (arith, bytes_eq_self mount.guest_path)) (ground arith),
  valid_mounts-Distinct (mount.guest_path ∷ seen) mounts (ground arith),
)

resolve_mounts-some :
    (given : Option (List Preopen)) (mounts : List Preopen)
    → resolve_mounts given ≡ some mounts
    → (length mounts ≤ 64) × All IsMount mounts × Distinct (guest_paths mounts)
unfolding resolve_mounts
resolve_mounts-some none mounts h = ground arith
resolve_mounts-some (some given) mounts h =
    ground (arith, valid_mounts-IsMount [] given, valid_mounts-Distinct [] given)

-- What a chain of stages that succeeds has gone through.
bind-some :
    {A B : Type 0} (o : Option A) (f : A → Option B) (b : B)
    → (o >>= f) ≡ some b
    → (a : A) × (o ≡ some a) × (f a ≡ some b)
bind-some none f b h = cc
bind-some (some a) f b h = (a, refl, h)

bounded :
    (stdin stdout stderr : Option Stream) (env : List Bytes) (mounts : List Preopen)
    (files iovecs subs : ℕ)
    → (length env ≤ 4096) × All IsVariable env
    → (length mounts ≤ 64) × All IsMount mounts × Distinct (guest_paths mounts)
    → (3 ≤ files) × (files ≤ 65536)
    → (1 ≤ iovecs) × (iovecs ≤ 65536)
    → (1 ≤ subs) × (subs ≤ 65536)
    → let cfg : Config = record {
      stdin = stdin;
      stdout = stdout;
      stderr = stderr;
      args = [];
      env = env;
      mounts = mounts;
      max_open_files = files;
      max_iovecs = iovecs;
      max_subscriptions_per_poll = subs;
    } in
      IsBounded cfg × (clone_config cfg ≡ cfg)
unfolding clone_config
bounded stdin stdout stderr env mounts files iovecs subs he hm hf hi hs = (
  record {
    files = hf;
    iovecs = hi;
    subscriptions = hs;
    env = he;
    mounts = (hm.0, hm.1);
    distinct = hm.2;
  },
  ground arith,
)

-- A configuration that is accepted has every limit between its least value and 65536, at most 4096
-- variables of the form NAME=value, and at most 64 mounts with absolute clean paths, no two of the
-- same guest path; `cloneConfig` leaves it as it is.
pub config_from_plugin_config-IsBounded :
    (given : PluginConfig) (cfg : Config)
    → config_from_plugin_config given ≡ some cfg
    → IsBounded cfg × (clone_config cfg ≡ cfg)
unfolding config_from_plugin_config clone_config
config_from_plugin_config-IsBounded given cfg h0 =
    let (stdin, e1, h1) = bind-some (apply_input_mode _ given.stdin) _ cfg h0 in
    let (stdout, e2, h2) = bind-some (apply_output_mode _ given.stdout) _ cfg h1 in
    let (stderr, e3, h3) = bind-some (apply_output_mode _ given.stderr) _ cfg h2 in
    let (env, e4, h4) = bind-some (resolve_env given.env) _ cfg h3 in
    let (mounts, e5, h5) = bind-some (resolve_mounts given.mounts) _ cfg h4 in
    let (files, e6, h6) = bind-some (resolve_limit 3 given.max_open_files) _ cfg h5 in
    let (iovecs, e7, h7) = bind-some (resolve_limit 1 given.max_iovecs) _ cfg h6 in
    let (subs, e8, h8) = bind-some (resolve_limit 1 given.max_subscriptions) _ cfg h7 in
    subst (λ c. IsBounded c × (clone_config c ≡ c)) (ap (λ o. from_option o cfg) h8)
      (bounded stdin stdout stderr env mounts files iovecs subs (resolve_env-some given.env env e4)
        (resolve_mounts-some given.mounts mounts e5)
        (resolve_limit-some 3 files given.max_open_files (omega arith) e6)
        (resolve_limit-some 1 iovecs given.max_iovecs (omega arith) e7)
        (resolve_limit-some 1 subs given.max_subscriptions (omega arith) e8))
