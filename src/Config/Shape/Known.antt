-- ===== src/Config/Shape/Known.antt =====
-- The fields that `validateConfigJSON` of internal/core/core.go knows, with their bits.
use wasi.Prelude.{
  ℕ, ◌<◌, ◌≡◌, refl, subst, Bool, true, false, Bool-cases, inl, inr, Option, some, List, [], ◌∷◌,
  All, arith,
}
use wasi.Host.{Bytes}
use wasi.Paths.{bytes_eq}
use wasi.Paths.Leaf.{bytes_eq→eq}
use wasi.Config.Shape.{
  Kind, config_object, mount_object, env_array, mount_array, string_value, bool_value, number_value,
  config_fields, mount_fields, fields_of, field,
}
use wasi.Config.Shape.Bits.{is_in, bits, has}
use wasi.Config.Shape.Grammar.{guest, host, FieldOf}

-- Which field of a mount has the bit 1, and which the bit 2.
abbrev pub Marked : Kind → Bytes → ℕ → Type 0
Marked mount_object name bit = (bit ≡ 1 → name ≡ guest) × (bit ≡ 2 → name ≡ host)
Marked _ name bit = Unit

abbrev pub Known : Kind → Bytes × ℕ × Kind → Type 0
Known kind (name, bit, child) =
    FieldOf kind name child × (is_in bit bits ≡ true) × Marked kind name bit

config-Known : All (Known config_object) config_fields
config-Known = (
  (FieldOf.stdin, refl, tt),
  (
    (FieldOf.stdout, refl, tt),
    (
      (FieldOf.stderr, refl, tt),
      (
        (FieldOf.env, refl, tt),
        (
          (FieldOf.mounts, refl, tt),
          (
            (FieldOf.max_open_files, refl, tt),
            ((FieldOf.max_iovecs, refl, tt), ((FieldOf.max_subscriptions, refl, tt), tt)),
          ),
        ),
      ),
    ),
  ),
)

neither : (name : Bytes) (bit : ℕ) → 2 < bit → Marked mount_object name bit
neither name bit h = (λ e. absurd (omega arith), λ e. absurd (omega arith))

mount-Known : All (Known mount_object) mount_fields
mount-Known = (
  (FieldOf.guest_path, refl, (λ e. refl, λ e. absurd (omega arith))),
  (
    (FieldOf.host_path, refl, (λ e. absurd (omega arith), λ e. refl)),
    (
      (FieldOf.may_read, refl, neither _ 4 (omega arith)),
      (
        (FieldOf.may_write, refl, neither _ 8 (omega arith)),
        ((FieldOf.may_mutate, refl, neither _ 16 (omega arith)), tt),
      ),
    ),
  ),
)

pub field-All :
    (P : Bytes × ℕ × Kind → Type 0) (key : Bytes) (fields : List (Bytes × ℕ × Kind)) (bit : ℕ)
    (child : Kind)
    → All P fields
    → field key fields ≡ some (bit, child)
    → P (key, bit, child)
unfolding field
field-All P key [] bit child all e = absurd (cc)
field-All P key ((name, b, c) ∷ fields) bit child (p, all) e =
    elim (Bool-cases (bytes_eq key name)) [
      | inl same ↦
          let found : (◌≡◌ {A = Bytes × ℕ × Kind} (name, b, c) (key, bit, child)) =
            first (bytes_eq→eq key name same) (ground arith) in
          subst P found p
      | inr other ↦ field-All P key fields bit child all (ground arith)
    ]
  where
    first :
        key ≡ name
        → (◌≡◌ {A = Option (ℕ × Kind)} (some (b, c)) (some (bit, child)))
        → (◌≡◌ {A = Bytes × ℕ × Kind} (name, b, c) (key, bit, child))
    first named given = cc

abbrev pub is_object : Kind → Bool
is_object config_object = true
is_object mount_object = true
is_object _ = false

abbrev pub is_array : Kind → Bool
is_array env_array = true
is_array mount_array = true
is_array _ = false

pub field-Known :
    (kind : Kind) (key : Bytes) (bit : ℕ) (child : Kind)
    → is_object kind ≡ true
    → field key (fields_of kind) ≡ some (bit, child)
    → Known kind (key, bit, child)
field-Known config_object key bit child o e =
    field-All (Known config_object) key config_fields bit child config-Known e
field-Known mount_object key bit child o e =
    field-All (Known mount_object) key mount_fields bit child mount-Known e
field-Known env_array key bit child o e = absurd (cc)
field-Known mount_array key bit child o e = absurd (cc)
field-Known string_value key bit child o e = absurd (cc)
field-Known bool_value key bit child o e = absurd (cc)
field-Known number_value key bit child o e = absurd (cc)

-- A field that an object with these bits has not had.
abbrev pub Fresh : Kind → ℕ → Bytes → Type 0
Fresh kind seen key =
    (bit : ℕ) (child : Kind) → field key (fields_of kind) ≡ some (bit, child) → has seen bit ≡ false
