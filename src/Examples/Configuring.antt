-- ===== src/Examples/Configuring.antt =====
-- The reading of a plugin's configuration (internal/core/core.go) at concrete inputs, and the poll of
-- a writer that the configuration discards (internal/core/poll.go).
use wasi.Config.Shape.Grammar.{Reads}
use wasi.Config.Shape.Complete.{validate_config_json_lem}
use wasi.Prelude.{Bool, true, ◌↔◌, ◌≡◌, refl, ℕ, List, [], ◌∷◌, false, none, some, arith}
use wasi.Host.{os_file}
use wasi.Config.{Config}
use wasi.Config.Resolve
use wasi.Config.Resolve.{PluginConfig, config_from_plugin_config, clone_config, discard, discarding}
use wasi.Config.Bounded.{IsBounded, config_from_plugin_config-IsBounded}
use wasi.Config.Surrogates.{validate_config_surrogate_escapes}
use wasi.Config.Escapes.{quoted, is_paired, validate_config_surrogate_escapes_lem}
use wasi.Config.Shape.{Token, open_object, close_object, text, config_object, validate_config_json}
use wasi.Exec.{Plugin, err}
use wasi.Abi.Errno.{wasi_enotsup}
use wasi.Poll.Oneoff.{poll_until}
use wasi.Poll.Unsupported.{writing_to, poll_until-unsupported}
use wasi.Paths
use wasi.Text.Utf8
use wasi.Examples.Setting.{small_host, plugin, read_mount}
use wasi.Examples.Runs.{guest, out_entry}

abbrev given : PluginConfig
given = record {
  stdin = none;
  stdout = some discard;
  stderr = none;
  env = some ((65 ∷ 61 ∷ 49 ∷ []) ∷ []);
  mounts = some (read_mount ∷ []);
  max_open_files = some 16;
  max_iovecs = none;
  max_subscriptions = none;
}

abbrev resolved : Config
resolved = record {
  stdin = some (os_file 0);
  stdout = some discarding;
  stderr = some (os_file 2);
  args = [];
  env = (65 ∷ 61 ∷ 49 ∷ []) ∷ [];
  mounts = read_mount ∷ [];
  max_open_files = 16;
  max_iovecs = 1024;
  max_subscriptions_per_poll = 1024;
}

given-resolved : config_from_plugin_config given ≡ some resolved
unfolding config_from_plugin_config Utf8.rune_length Paths.extend_first
given-resolved = refl

config_from_plugin_config-IsBounded_example :
    IsBounded resolved × (clone_config resolved ≡ resolved)
config_from_plugin_config-IsBounded_example =
    config_from_plugin_config-IsBounded given resolved given-resolved

-- A pair, and a lone high surrogate.
abbrev units : List ℕ
units = 65 ∷ 0xd83d ∷ 0xde00 ∷ 0xd800 ∷ []

validate_config_surrogate_escapes_lem_example :
    validate_config_surrogate_escapes (quoted units) ≡ is_paired units
validate_config_surrogate_escapes_lem_example =
    validate_config_surrogate_escapes_lem units (omega arith)

-- {"stdin": "eof"}
abbrev tokens : List Token
tokens =
    open_object ∷ text (115 ∷ 116 ∷ 100 ∷ 105 ∷ 110 ∷ []) ∷ text Resolve.eof ∷ close_object ∷ []

validate_config_json_lem_example :
    (validate_config_json tokens true ≡ true)
    ↔ (Reads config_object tokens [] × (◌≡◌ {A = Bool} true true))
validate_config_json_lem_example = validate_config_json_lem tokens true

-- The example's plugin on a host where no stream can tell whether it is ready.
abbrev mute_plugin : Plugin ℕ
mute_plugin = record plugin {
  host = record small_host { poll = record small_host.poll { is_pollable = λ stream. false } };
}

poll_until-unsupported_example :
    (poll_until mute_plugin 5 (writing_to out_entry 0 ∷ []) none guest).0 ≡ err wasi_enotsup
poll_until-unsupported_example = poll_until-unsupported mute_plugin 0 out_entry 4 guest refl refl
