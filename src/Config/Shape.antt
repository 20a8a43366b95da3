-- ===== src/Config/Shape.antt =====
-- internal/core/core.go, `validateConfigJSON`, on the tokens that encoding/json's Decoder gives. The
-- decoder keeps to the syntax of JSON: a text with an error in it gives the tokens before the error.
-- The texts of errors are left out: `none` is an error.
--
-- The recursion of `value` and its loops are one function on what is to be read, and on fuel.
mod Enough
pub mod Grammar
mod Known
mod Rest
mod Wanted
mod Sound
pub mod Complete
mod Bits
use wasi.Prelude.{
  ℕ, zero, suc, ◌+◌, ◌*◌, Bool, true, false, not, ◌&&◌, ◌||◌, List, [], ◌∷◌, Option, none, some,
  length, leb, bit_and, bit_or, ◌==◌, if◌then◌else◌,
}
use wasi.Host.{Bytes}
use wasi.Paths.{bytes_eq}

-- json.Token: a json.Delim, a string, a bool, a json.Number or nil.
pub data Token : Type 0 where
  open_object close_object open_array close_array null : Token
  text : Bytes → Token
  boolean : Bool → Token
  number : Bytes → Token

pub data Kind : Type 0 where
  config_object mount_object env_array mount_array string_value bool_value number_value : Kind

-- The fields of a configuration and of a mount: "stdin", "stdout", "stderr", "env", "mounts",
-- "maxOpenFiles", "maxIOVecs" and "maxSubscriptionsPerPoll", with their bits.
abbrev config_fields : List (Bytes × ℕ × Kind)
config_fields =
    (115 ∷ 116 ∷ 100 ∷ 105 ∷ 110 ∷ [], 1, string_value)
    ∷ (115 ∷ 116 ∷ 100 ∷ 111 ∷ 117 ∷ 116 ∷ [], 2, string_value)
    ∷ (115 ∷ 116 ∷ 100 ∷ 101 ∷ 114 ∷ 114 ∷ [], 4, string_value)
    ∷ (101 ∷ 110 ∷ 118 ∷ [], 8, env_array)
    ∷ (109 ∷ 111 ∷ 117 ∷ 110 ∷ 116 ∷ 115 ∷ [], 16, mount_array)
    ∷ (109 ∷ 97 ∷ 120 ∷ 79 ∷ 112 ∷ 101 ∷ 110 ∷ 70 ∷ 105 ∷ 108 ∷ 101 ∷ 115 ∷ [], 32, number_value)
    ∷ (109 ∷ 97 ∷ 120 ∷ 73 ∷ 79 ∷ 86 ∷ 101 ∷ 99 ∷ 115 ∷ [], 64, number_value)
    ∷ (
      109 ∷ 97 ∷ 120 ∷ 83 ∷ 117 ∷ 98 ∷ 115 ∷ 99 ∷ 114 ∷ 105 ∷ 112 ∷ 116 ∷ 105 ∷ 111 ∷ 110 ∷ 115 ∷ 80
          ∷ 101 ∷ 114 ∷ 80 ∷ 111 ∷ 108 ∷ 108 ∷ [],
      128,
      number_value,
    )
    ∷ []

-- "guest", "host", "read", "write" and "mutateDirectory".
abbrev mount_fields : List (Bytes × ℕ × Kind)
mount_fields =
    (103 ∷ 117 ∷ 101 ∷ 115 ∷ 116 ∷ [], 1, string_value)
    ∷ (104 ∷ 111 ∷ 115 ∷ 116 ∷ [], 2, string_value)
    ∷ (114 ∷ 101 ∷ 97 ∷ 100 ∷ [], 4, bool_value)
    ∷ (119 ∷ 114 ∷ 105 ∷ 116 ∷ 101 ∷ [], 8, bool_value)
    ∷ (
      109 ∷ 117 ∷ 116 ∷ 97 ∷ 116 ∷ 101 ∷ 68 ∷ 105 ∷ 114 ∷ 101 ∷ 99 ∷ 116 ∷ 111 ∷ 114 ∷ 121 ∷ [],
      16,
      bool_value,
    )
    ∷ []

abbrev fields_of : Kind → List (Bytes × ℕ × Kind)
fields_of config_object = config_fields
fields_of _ = mount_fields

unfoldable pub field : Bytes → List (Bytes × ℕ × Kind) → Option (ℕ × Kind)
unfolding bytes_eq
field key [] = none
field key ((name, bit, child) ∷ others) =
    if bytes_eq key name then some (bit, child) else field key others

-- dec.More()
abbrev pub has_more : List Token → Bool
has_more [] = false
has_more (close_object ∷ tokens) = false
has_more (close_array ∷ tokens) = false
has_more (t ∷ tokens) = true

-- `child` and `maxItems` of an array.
abbrev pub item_of : Kind → Kind
item_of mount_array = mount_object
item_of _ = string_value

abbrev pub max_items : Kind → ℕ
max_items mount_array = 64
max_items _ = 4096

abbrev pub is_mount : Kind → Bool
is_mount mount_object = true
is_mount _ = false

-- What is to be read: a value; the fields of an object after those with the bits `seen`, with its
-- end; or the items of an array after `count`, with its end.
pub data Task : Type 0 where
  value : Kind → Task
  object_rest : Kind → ℕ → Task
  array_rest : Kind → ℕ → Task

-- What the first token of a value leaves to do: nothing, or the rest of a composite; none for a
-- token of another shape.
unfoldable pub begin : Kind → Token → Option (Option Task)
begin string_value (text s) = some none
begin bool_value (boolean b) = some none
begin number_value (number s) = some none
begin config_object open_object = some (some (object_rest config_object 0))
begin mount_object open_object = some (some (object_rest mount_object 0))
begin env_array open_array = some (some (array_rest env_array 0))
begin mount_array open_array = some (some (array_rest mount_array 0))
begin _ _ = none

-- A mount wants "guest" and "host".
unfoldable pub end_object : Kind → ℕ → List Token → Option (List Token)
end_object kind seen (close_object ∷ tokens) =
    if is_mount kind && not (bit_and seen 3 == 3) then none else some tokens
end_object kind seen _ = none

unfoldable pub end_array : List Token → Option (List Token)
end_array (close_array ∷ tokens) = some tokens
end_array _ = none

-- A key that is known and new, and what follows it: the kind of its value, the bits with its own,
-- and the tokens behind it.
abbrev new_field : ℕ → Option (ℕ × Kind) → List Token → Option (Kind × ℕ × List Token)
new_field seen none tokens = none
new_field seen (some (bit, child)) tokens =
    if bit_and seen bit == 0 then some (child, bit_or seen bit, tokens) else none

unfoldable pub next_field : Kind → ℕ → List Token → Option (Kind × ℕ × List Token)
unfolding field
next_field kind seen (text key ∷ tokens) = new_field seen (field key (fields_of kind)) tokens
next_field kind seen _ = none

abbrev pub then_read :
    (Task → List Token → Option (List Token)) → Task → Option (List Token) → Option (List Token)
then_read read task none = none
then_read read task (some tokens) = read task tokens

-- Behind the first token of a value; behind a key; and at an item.
abbrev pub after_begin :
    (Task → List Token → Option (List Token))
    → Option (Option Task)
    → List Token
    → Option (List Token)
after_begin read none tokens = none
after_begin read (some none) tokens = some tokens
after_begin read (some (some task)) tokens = read task tokens

abbrev pub after_key :
    (Task → List Token → Option (List Token))
    → Kind
    → Option (Kind × ℕ × List Token)
    → Option (List Token)
after_key read kind none = none
after_key read kind (some (child, now, rest)) =
    then_read read (object_rest kind now) (read (value child) rest)

abbrev pub at_item :
    (Task → List Token → Option (List Token)) → Kind → ℕ → List Token → Option (List Token)
at_item read kind count tokens =
    if leb (max_items kind) count
    then none
    else then_read read (array_rest kind (suc count)) (read (value (item_of kind)) tokens)

-- One step, where `read` does what is left. The result is the tokens that were not read.
unfoldable pub read_with :
    (Task → List Token → Option (List Token)) → Task → List Token → Option (List Token)
unfolding begin end_object end_array next_field
read_with read (value kind) [] = none
read_with read (value kind) (t ∷ tokens) = after_begin read (begin kind t) tokens
read_with read (object_rest kind seen) tokens =
    if has_more tokens
    then after_key read kind (next_field kind seen tokens)
    else end_object kind seen tokens
read_with read (array_rest kind count) tokens =
    if has_more tokens then at_item read kind count tokens else end_array tokens

unfoldable pub read : ℕ → Task → List Token → Option (List Token)
unfolding read_with
read zero task tokens = none
read (suc fuel) task tokens = read_with (read fuel) task tokens

abbrev pub is_all : Option (List Token) → Bool → Bool
is_all none clean_end = false
is_all (some []) clean_end = clean_end
is_all (some (t ∷ tokens)) clean_end = false

-- Fuel enough for any task on the tokens.
abbrev pub enough : List Token → ℕ
enough tokens = suc (2 * length tokens)

-- `clean_end` tells that the text ends behind the tokens, without an error. The result is `true`
-- where the source returns no error.
unfoldable pub validate_config_json : List Token → Bool → Bool
unfolding read
validate_config_json tokens clean_end =
    is_all (read (suc (enough tokens)) (value config_object) tokens) clean_end
