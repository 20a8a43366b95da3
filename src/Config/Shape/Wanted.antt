-- ===== src/Config/Shape/Wanted.antt =====
-- From the fields of the grammar to those of `validateConfigJSON` (internal/core/core.go), and what
-- its bits still ask for.
use wasi.Prelude.{
  ℕ, ◌<◌, ◌≡◌, ◌≢◌, ◌⊎◌, refl, sym, ap, subst, ◌∙◌, true, inl, inr, Option, some, List, [], ◌∷◌,
  All, bit_or, ◌==◌, if◌then◌else◌,
}
use wasi.Host.{Bytes}
use wasi.Paths.{bytes_eq}
use wasi.Config.Shape.{
  Kind, config_object, mount_object, env_array, mount_array, string_value, bool_value, number_value,
  config_fields, mount_fields, fields_of, field,
}
use wasi.Config.Shape.Bits.{is_in, bits, has, has-bit_or, has-bit_or-other, has-kept}
use wasi.Config.Shape.Grammar.{guest, host, FieldOf, Has}
use wasi.Config.Shape.Known.{is_object, Fresh, field-Known, field-All}

-- A field by its bit.
abbrev name_at : List (Bytes × ℕ × Kind) → ℕ → Bytes
name_at [] bit = []
name_at ((name, b, c) ∷ fields) bit = if bit == b then name else name_at fields bit

abbrev Placed : List (Bytes × ℕ × Kind) → Bytes × ℕ × Kind → Type 0
Placed fields (name, bit, child) = name ≡ name_at fields bit

config-Placed : All (Placed config_fields) config_fields
config-Placed = (refl, (refl, (refl, (refl, (refl, (refl, (refl, (refl, tt))))))))

mount-Placed : All (Placed mount_fields) mount_fields
mount-Placed = (refl, (refl, (refl, (refl, (refl, tt)))))

placed :
    (kind : Kind) (key : Bytes) (bit : ℕ) (child : Kind)
    → is_object kind ≡ true
    → field key (fields_of kind) ≡ some (bit, child)
    → key ≡ name_at (fields_of kind) bit
placed config_object key bit child o e =
    field-All (Placed config_fields) key config_fields bit child config-Placed e
placed mount_object key bit child o e =
    field-All (Placed mount_fields) key mount_fields bit child mount-Placed e
placed env_array key bit child o e = absurd (cc)
placed mount_array key bit child o e = absurd (cc)
placed string_value key bit child o e = absurd (cc)
placed bool_value key bit child o e = absurd (cc)
placed number_value key bit child o e = absurd (cc)

-- A field of the grammar is one of the code, with some bit.
abbrev pub Field : Kind → Bytes → Kind → Type 0
Field kind key child = (bit : ℕ) × (field key (fields_of kind) ≡ some (bit, child))

pub FieldOf-Field :
    (kind : Kind) (key : Bytes) (child : Kind) → FieldOf kind key child → Field kind key child
unfolding field bytes_eq
FieldOf-Field _ _ _ FieldOf.stdin = (1, refl)
FieldOf-Field _ _ _ FieldOf.stdout = (2, refl)
FieldOf-Field _ _ _ FieldOf.stderr = (4, refl)
FieldOf-Field _ _ _ FieldOf.env = (8, refl)
FieldOf-Field _ _ _ FieldOf.mounts = (16, refl)
FieldOf-Field _ _ _ FieldOf.max_open_files = (32, refl)
FieldOf-Field _ _ _ FieldOf.max_iovecs = (64, refl)
FieldOf-Field _ _ _ FieldOf.max_subscriptions = (128, refl)
FieldOf-Field _ _ _ FieldOf.guest_path = (1, refl)
FieldOf-Field _ _ _ FieldOf.host_path = (2, refl)
FieldOf-Field _ _ _ FieldOf.may_read = (4, refl)
FieldOf-Field _ _ _ FieldOf.may_write = (8, refl)
FieldOf-Field _ _ _ FieldOf.may_mutate = (16, refl)

pub guest-field : field guest mount_fields ≡ some (1, string_value)
unfolding field bytes_eq
guest-field = refl

pub host-field : field host mount_fields ≡ some (2, string_value)
unfolding field bytes_eq
host-field = refl

-- The bit of a field that a mount wants is there, or its key is still to come.
abbrev pub Wanted : Kind → ℕ → ℕ → Bytes → List Bytes → Type 0
Wanted kind seen bit name keys = kind ≡ mount_object → (has seen bit ≡ true) ⊎ Has name keys

head_same : {a b : Bytes} {s t : List Bytes} → (◌≡◌ {A = List Bytes} (a ∷ s) (b ∷ t)) → a ≡ b
head_same e = cc

tail_same : {a b : Bytes} {s t : List Bytes} → (◌≡◌ {A = List Bytes} (a ∷ s) (b ∷ t)) → s ≡ t
tail_same e = cc

module _ (kind : Kind) (seen bit : ℕ) (key : Bytes) (child : Kind) (small : seen < 256)
    (object : is_object kind ≡ true) (known : field key (fields_of kind) ≡ some (bit, child)) where
  pub the_bit : is_in bit bits ≡ true
  the_bit = (field-Known kind key bit child object known).1

  still-Fresh : (k : Bytes) → key ≢ k → Fresh kind seen k → Fresh kind (bit_or seen bit) k
  still-Fresh k apart f b c e =
      has-bit_or-other seen bit small the_bit b (field-Known kind k b c object e).1
        (λ same. apart (
          placed kind key bit child object known
          ∙ ap (name_at (fields_of kind)) same
          ∙ sym (placed kind k b c object e)))
        (f b c e)

  pub all-Fresh :
      (keys : List Bytes)
      → All (λ k. key ≢ k) keys
      → All (Fresh kind seen) keys
      → All (Fresh kind (bit_or seen bit)) keys
  all-Fresh [] apart all = tt
  all-Fresh (k ∷ keys) (a, apart) (f, all) = (still-Fresh k a f, all-Fresh keys apart all)

  pub still-Wanted :
      (b : ℕ) (name : Bytes) (keys : List Bytes)
      → is_in b bits ≡ true
      → field name mount_fields ≡ some (b, string_value)
      → Wanted kind seen b name (key ∷ keys)
      → Wanted kind (bit_or seen bit) b name keys
  still-Wanted b name keys one named want mount = by_place (want mount)
    where
      this_bit : name ≡ key → bit ≡ b
      this_bit same =
          let there : field key mount_fields ≡ some (bit, child) =
            subst (λ k. field key (fields_of k) ≡ some (bit, child)) mount known in
          let here : field key mount_fields ≡ some (b, string_value) =
            subst (λ n. field n mount_fields ≡ some (b, string_value)) same named in
          bits_same (sym there ∙ here)
        where
          bits_same :
              (◌≡◌ {A = Option (ℕ × Kind)} (some (bit, child)) (some (b, string_value))) → bit ≡ b
          bits_same h = cc

      found :
          (ks : List Bytes)
          → Has name ks
          → ks ≡ key ∷ keys
          → (has (bit_or seen bit) b ≡ true) ⊎ Has name keys
      found _ Has.here e = inl (
          subst (λ x. has (bit_or seen bit) x ≡ true) (this_bit (head_same e))
            (has-bit_or seen bit small the_bit))
      found _ (Has.there h) e = inr (subst (Has name) (tail_same e) h)

      by_place :
          (has seen b ≡ true) ⊎ Has name (key ∷ keys)
          → (has (bit_or seen bit) b ≡ true) ⊎ Has name keys
      by_place (inl had) = inl (has-kept seen bit b small the_bit one had)
      by_place (inr h) = found (key ∷ keys) h refl
