-- ===== src/Config/Shape/Complete.antt =====
-- `validateConfigJSON` of internal/core/core.go lets through what keeps to the grammar.
use wasi.Prelude.{
  ℕ, zero, suc, ◌+◌, ◌≤◌, ◌<◌, ◌≡◌, ◌⊎◌, ◌↔◌, refl, sym, ap, subst, ◌∙◌, Bool, true, false, inl,
  inr, some, List, [], ◌∷◌, All, leb, bit_or, arith,
}
use wasi.Prelude.Bits.{bit_and_zero_left}
use wasi.Host.{Bytes}
use wasi.Config.Shape.{
  Token, open_object, close_object, open_array, close_array, text, boolean, number, Kind,
  config_object, mount_object, env_array, mount_array, string_value, bool_value, number_value,
  fields_of, field, has_more, item_of, max_items, Task, value, object_rest, array_rest, begin,
  end_object, end_array, next_field, read_with, read, is_all, enough, validate_config_json,
}
use wasi.Config.Shape.Bits.{has, bit_or-lt, both-has}
use wasi.Config.Shape.Grammar.{
  guest, host, Has, Distinct, Reads, a_string, a_boolean, a_number, a_config, a_mount, an_env,
  a_mount_list, Fields, no_field, a_field, Items, no_item, an_item,
}
use wasi.Config.Shape.Known.{is_object, Fresh}
use wasi.Config.Shape.Sound.{validate_config_json-Reads}
use wasi.Config.Shape.Enough.{read-agree}
use wasi.Config.Shape.Wanted.{
  FieldOf-Field, guest-field, host-field, Wanted, the_bit, all-Fresh, still-Wanted,
}

-- From some number of rounds on, the task is done.
abbrev Done : Task → List Token → List Token → Type 0
Done task tokens rest = (n : ℕ) × ((m : ℕ) → n ≤ m → read m task tokens ≡ some rest)

-- One round more.
Done-step :
    (task : Task) (tokens rest : List Token) (n : ℕ)
    → ((m : ℕ) → n ≤ m → read_with (read m) task tokens ≡ some rest)
    → Done task tokens rest
unfolding read
Done-step task tokens rest n step = (suc n, later)
  where
    later : (m : ℕ) → suc n ≤ m → read m task tokens ≡ some rest
    later zero le = absurd (omega arith)
    later (suc m) le = step m (omega arith)

Reads-more :
    (kind : Kind) (tokens rest : List Token) → Reads kind tokens rest → has_more tokens ≡ true
Reads-more _ _ _ (a_string s rest) = refl
Reads-more _ _ _ (a_boolean b rest) = refl
Reads-more _ _ _ (a_number n rest) = refl
Reads-more _ _ _ (a_config f d) = refl
Reads-more _ _ _ (a_mount f d g h) = refl
Reads-more _ _ _ (an_env i le) = refl
Reads-more _ _ _ (a_mount_list i le) = refl

end_of :
    (kind : Kind) (seen : ℕ) (rest : List Token)
    → seen < 256
    → Wanted kind seen 1 guest []
    → Wanted kind seen 2 host []
    → end_object kind seen (close_object ∷ rest) ≡ some rest
unfolding end_object
end_of mount_object seen rest small g h = by_bits (g refl) (h refl)
  where
    by_bits :
        (has seen 1 ≡ true) ⊎ Has guest []
        → (has seen 2 ≡ true) ⊎ Has host []
        → end_object mount_object seen (close_object ∷ rest) ≡ some rest
    by_bits (inl one) (inl two) = rw (both-has seen small one two) refl
    by_bits (inl one) (inr host_key) = elim host_key [ ]
    by_bits (inr guest_key) _ = elim guest_key [ ]
end_of config_object seen rest small g h = refl
end_of env_array seen rest small g h = refl
end_of mount_array seen rest small g h = refl
end_of string_value seen rest small g h = refl
end_of bool_value seen rest small g h = refl
end_of number_value seen rest small g h = refl

field_found :
    (kind : Kind) (seen bit : ℕ) (key : Bytes) (child : Kind) (tokens : List Token)
    → field key (fields_of kind) ≡ some (bit, child)
    → has seen bit ≡ false
    → next_field kind seen (text key ∷ tokens) ≡ some (child, bit_or seen bit, tokens)
unfolding next_field
field_found kind seen bit key child tokens known unseen = rw known (ground arith)

Done-field :
    (kind : Kind) (seen now : ℕ) (key : Bytes) (child : Kind) (tokens behind rest : List Token)
    → next_field kind seen (text key ∷ tokens) ≡ some (child, now, tokens)
    → Done (value child) tokens behind
    → Done (object_rest kind now) behind rest
    → Done (object_rest kind seen) (text key ∷ tokens) rest
unfolding read_with
Done-field kind seen now key child tokens behind rest found (n, one) (k, others) =
    Done-step (object_rest kind seen) (text key ∷ tokens) rest (n + k)
      (λ m le. rw found (rw (one m (omega arith)) (others m (omega arith))))

Done-item :
    (kind : Kind) (count : ℕ) (tokens behind rest : List Token)
    → has_more tokens ≡ true
    → count < max_items kind
    → Done (value (item_of kind)) tokens behind
    → Done (array_rest kind (suc count)) behind rest
    → Done (array_rest kind count) tokens rest
unfolding read_with
Done-item kind count tokens behind rest more few (n, one) (k, others) =
    let free : leb (max_items kind) count ≡ false = ground arith in
    Done-step (array_rest kind count) tokens rest (n + k)
      (λ m le. rw more (rw free (rw (one m (omega arith)) (others m (omega arith)))))

all-fresh : (kind : Kind) (keys : List Bytes) → All (Fresh kind 0) keys
all-fresh kind [] = tt
all-fresh kind (key ∷ keys) = (λ bit child e. none_seen bit, all-fresh kind keys)
  where
    none_seen : (bit : ℕ) → has 0 bit ≡ false
    none_seen bit = rw (bit_and_zero_left bit) refl

mutual
  unfolding read_with begin end_array

  Reads-Done :
      (kind : Kind) (tokens rest : List Token)
      → Reads kind tokens rest
      → Done (value kind) tokens rest
  Reads-Done _ _ _ (a_string s rest) =
      Done-step (value string_value) (text s ∷ rest) rest 0 (λ m le. refl)
  Reads-Done _ _ _ (a_boolean b rest) =
      Done-step (value bool_value) (boolean b ∷ rest) rest 0 (λ m le. refl)
  Reads-Done _ _ _ (a_number n rest) =
      Done-step (value number_value) (number n ∷ rest) rest 0 (λ m le. refl)
  Reads-Done _ _ rest (a_config {keys = keys} {tokens = tokens} fields distinct) =
      let (n, done) =
        Fields-Done config_object 0 keys tokens (close_object ∷ rest) rest refl (omega arith) refl
          distinct (all-fresh config_object keys) (λ e. absurd (cc)) (λ e. absurd (cc)) fields in
      Done-step (value config_object) (open_object ∷ tokens) rest n (λ m le. done m le)
  Reads-Done _ _ rest (a_mount {keys = keys} {tokens = tokens} fields distinct g h) =
      let (n, done) =
        Fields-Done mount_object 0 keys tokens (close_object ∷ rest) rest refl (omega arith) refl
          distinct (all-fresh mount_object keys) (λ e. inr g) (λ e. inr h) fields in
      Done-step (value mount_object) (open_object ∷ tokens) rest n (λ m le. done m le)
  Reads-Done _ _ rest (an_env {n = n} {tokens = tokens} items le) =
      let (k, done) =
        Items-Done env_array string_value 0 n tokens (close_array ∷ rest) rest refl refl
          (omega arith) items in
      Done-step (value env_array) (open_array ∷ tokens) rest k (λ m le. done m le)
  Reads-Done _ _ rest (a_mount_list {n = n} {tokens = tokens} items le) =
      let (k, done) =
        Items-Done mount_array mount_object 0 n tokens (close_array ∷ rest) rest refl refl
          (omega arith) items in
      Done-step (value mount_array) (open_array ∷ tokens) rest k (λ m le. done m le)

  Fields-Done :
      (kind : Kind) (seen : ℕ) (keys : List Bytes) (tokens end rest : List Token)
      → end ≡ close_object ∷ rest
      → seen < 256
      → is_object kind ≡ true
      → Distinct keys
      → All (Fresh kind seen) keys
      → Wanted kind seen 1 guest keys
      → Wanted kind seen 2 host keys
      → Fields kind keys tokens end
      → Done (object_rest kind seen) tokens rest
  Fields-Done kind seen _ _ end rest closes small object distinct fresh g h no_field =
      Done-step (object_rest kind seen) end rest 0 (λ m le.
        subst (λ t. read_with (read m) (object_rest kind seen) t ≡ some rest) (sym closes)
          (end_of kind seen rest small g h))
  Fields-Done kind seen _ _ end rest closes small object (apart, distinct) (new, fresh) g h
        (a_field {child = child} {key = key} {keys = keys} {tokens = tokens} {behind = behind} of
          reads fields) =
      let (bit, known) = FieldOf-Field kind key child of in
      Done-field kind seen (bit_or seen bit) key child tokens behind rest
        (field_found kind seen bit key child tokens known (new bit child known))
        (Reads-Done child tokens behind reads)
        (Fields-Done kind (bit_or seen bit) keys behind end rest closes
          (bit_or-lt seen bit small (the_bit kind seen bit key child small object known)) object
          distinct (all-Fresh kind seen bit key child small object known keys apart fresh)
          (still-Wanted kind seen bit key child small object known 1 guest keys refl guest-field g)
          (still-Wanted kind seen bit key child small object known 2 host keys refl host-field h)
          fields)

  Items-Done :
      (kind item : Kind) (count n : ℕ) (tokens end rest : List Token)
      → end ≡ close_array ∷ rest
      → item_of kind ≡ item
      → count + n ≤ max_items kind
      → Items item n tokens end
      → Done (array_rest kind count) tokens rest
  Items-Done kind item count _ _ end rest closes is few no_item =
      Done-step (array_rest kind count) end rest 0 (λ m le.
        subst (λ t. read_with (read m) (array_rest kind count) t ≡ some rest) (sym closes) refl)
  Items-Done kind item count _ _ end rest closes is few
        (an_item {n = n} {tokens = tokens} {behind = behind} reads items) =
      Done-item kind count tokens behind rest (Reads-more item tokens behind reads) (omega arith)
        (subst (λ k. Done (value k) tokens behind) (sym is) (Reads-Done item tokens behind reads))
        (Items-Done kind item (suc count) n behind end rest closes is (omega arith) items)

enough_rounds :
    (tokens rest : List Token)
    → Done (value config_object) tokens rest
    → read (suc (enough tokens)) (value config_object) tokens ≡ some rest
enough_rounds tokens rest (n, done) =
    read-agree (suc (enough tokens)) (n + suc (enough tokens)) (value config_object) tokens
      (omega arith) (omega arith)
    ∙ done (n + suc (enough tokens)) (omega arith)

-- `validate_config_json` accepts a text exactly when it ends without an error behind its tokens, and
-- these are a configuration: each key is a field of the configuration, stands once and has a value
-- of its kind; the environment has at most 4096 strings, and there are at most 64 mounts, each with
-- a guest and a host and with no key that is not a mount's or stands twice.
pub validate_config_json_lem :
    (tokens : List Token) (clean_end : Bool)
    → (validate_config_json tokens clean_end ≡ true)
      ↔ (Reads config_object tokens [] × (clean_end ≡ true))
unfolding validate_config_json
validate_config_json_lem tokens clean_end = (validate_config_json-Reads tokens clean_end, accepted)
  where
    accepted :
        Reads config_object tokens [] × (clean_end ≡ true)
        → validate_config_json tokens clean_end ≡ true
    accepted (reads, clean) =
        ap (λ o. is_all o clean_end)
          (enough_rounds tokens [] (Reads-Done config_object tokens [] reads))
        ∙ clean
