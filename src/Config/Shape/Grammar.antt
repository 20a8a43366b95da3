-- ===== src/Config/Shape/Grammar.antt =====
-- The configurations that `validateConfigJSON` of internal/core/core.go is meant to let through: the
-- fields of an object, their values, and what objects and arrays must keep to.
use wasi.Prelude.{Bool, ℕ, suc, ◌≤◌, ◌≢◌, List, [], ◌∷◌, All}
use wasi.Host.{Bytes}
use wasi.Config.Shape.{
  Token, open_object, close_object, open_array, close_array, text, boolean, number, Kind,
  config_object, mount_object, env_array, mount_array, string_value, bool_value, number_value,
}

abbrev pub guest : Bytes
guest = 103 ∷ 117 ∷ 101 ∷ 115 ∷ 116 ∷ []

abbrev pub host : Bytes
host = 104 ∷ 111 ∷ 115 ∷ 116 ∷ []

-- The fields: "stdin", "stdout", "stderr", "env", "mounts", "maxOpenFiles", "maxIOVecs" and
-- "maxSubscriptionsPerPoll" of a configuration; "guest", "host", "read", "write" and
-- "mutateDirectory" of a mount.
pub data FieldOf : Kind → Bytes → Kind → Type 0 where
  stdin : FieldOf config_object (115 ∷ 116 ∷ 100 ∷ 105 ∷ 110 ∷ []) string_value
  stdout : FieldOf config_object (115 ∷ 116 ∷ 100 ∷ 111 ∷ 117 ∷ 116 ∷ []) string_value
  stderr : FieldOf config_object (115 ∷ 116 ∷ 100 ∷ 101 ∷ 114 ∷ 114 ∷ []) string_value
  env : FieldOf config_object (101 ∷ 110 ∷ 118 ∷ []) env_array
  mounts : FieldOf config_object (109 ∷ 111 ∷ 117 ∷ 110 ∷ 116 ∷ 115 ∷ []) mount_array
  max_open_files :
      FieldOf config_object
        (109 ∷ 97 ∷ 120 ∷ 79 ∷ 112 ∷ 101 ∷ 110 ∷ 70 ∷ 105 ∷ 108 ∷ 101 ∷ 115 ∷ [])
        number_value
  max_iovecs :
      FieldOf config_object (109 ∷ 97 ∷ 120 ∷ 73 ∷ 79 ∷ 86 ∷ 101 ∷ 99 ∷ 115 ∷ []) number_value
  max_subscriptions :
      FieldOf config_object
        (109 ∷ 97 ∷ 120 ∷ 83 ∷ 117 ∷ 98 ∷ 115 ∷ 99 ∷ 114 ∷ 105 ∷ 112 ∷ 116 ∷ 105 ∷ 111 ∷ 110 ∷ 115
          ∷ 80 ∷ 101 ∷ 114 ∷ 80 ∷ 111 ∷ 108 ∷ 108 ∷ [])
        number_value
  guest_path : FieldOf mount_object guest string_value
  host_path : FieldOf mount_object host string_value
  may_read : FieldOf mount_object (114 ∷ 101 ∷ 97 ∷ 100 ∷ []) bool_value
  may_write : FieldOf mount_object (119 ∷ 114 ∷ 105 ∷ 116 ∷ 101 ∷ []) bool_value
  may_mutate :
      FieldOf mount_object
        (109 ∷ 117 ∷ 116 ∷ 97 ∷ 116 ∷ 101 ∷ 68 ∷ 105 ∷ 114 ∷ 101 ∷ 99 ∷ 116 ∷ 111 ∷ 114 ∷ 121 ∷ [])
        bool_value

pub data Has (key : Bytes) : List Bytes → Type 0 where
  here : {keys : List Bytes} → Has key (key ∷ keys)
  there : {other : Bytes} {keys : List Bytes} → Has key keys → Has key (other ∷ keys)

-- No key stands twice.
abbrev pub Distinct : List Bytes → Type 0
Distinct [] = Unit
Distinct (key ∷ keys) = All (λ other. key ≢ other) keys × Distinct keys

-- The tokens up to a rest are a value of the kind; the fields of an object with the keys; so many
-- items of a kind.
mutual
  pub data Reads : Kind → List Token → List Token → Type 0 where
    a_string : (s : Bytes) (rest : List Token) → Reads string_value (text s ∷ rest) rest
    a_boolean : (b : Bool) (rest : List Token) → Reads bool_value (boolean b ∷ rest) rest
    a_number : (n : Bytes) (rest : List Token) → Reads number_value (number n ∷ rest) rest
    a_config :
        {keys : List Bytes} {tokens rest : List Token}
        → Fields config_object keys tokens (close_object ∷ rest)
        → Distinct keys
        → Reads config_object (open_object ∷ tokens) rest
    a_mount :
        {keys : List Bytes} {tokens rest : List Token}
        → Fields mount_object keys tokens (close_object ∷ rest)
        → Distinct keys
        → Has guest keys
        → Has host keys
        → Reads mount_object (open_object ∷ tokens) rest
    an_env :
        {n : ℕ} {tokens rest : List Token}
        → Items string_value n tokens (close_array ∷ rest)
        → n ≤ 4096
        → Reads env_array (open_array ∷ tokens) rest
    a_mount_list :
        {n : ℕ} {tokens rest : List Token}
        → Items mount_object n tokens (close_array ∷ rest)
        → n ≤ 64
        → Reads mount_array (open_array ∷ tokens) rest

  pub data Fields : Kind → List Bytes → List Token → List Token → Type 0 where
    no_field : {kind : Kind} {tokens : List Token} → Fields kind [] tokens tokens
    a_field :
        {kind child : Kind} {key : Bytes} {keys : List Bytes} {tokens behind rest : List Token}
        → FieldOf kind key child
        → Reads child tokens behind
        → Fields kind keys behind rest
        → Fields kind (key ∷ keys) (text key ∷ tokens) rest

  pub data Items : Kind → ℕ → List Token → List Token → Type 0 where
    no_item : {kind : Kind} {tokens : List Token} → Items kind 0 tokens tokens
    an_item :
        {kind : Kind} {n : ℕ} {tokens behind rest : List Token}
        → Reads kind tokens behind
        → Items kind n behind rest
        → Items kind (suc n) tokens rest
