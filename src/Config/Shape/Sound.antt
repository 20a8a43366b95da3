-- ===== src/Config/Shape/Sound.antt =====
-- What `validateConfigJSON` of internal/core/core.go lets through keeps to the grammar.
use wasi.Prelude.{
  ℕ, zero, suc, ◌<◌, ◌≡◌, refl, sym, subst, Bool, true, Bool-cases, inl, inr, Option, none, some,
  List, [], ◌∷◌, leb, bit_or, arith,
}
use wasi.Config.Shape.{
  Token, open_object, close_object, open_array, close_array, null, text, boolean, number, Kind,
  config_object, mount_object, env_array, mount_array, string_value, bool_value, number_value,
  has_more, item_of, max_items, Task, value, object_rest, array_rest, begin, end_array, next_field,
  then_read, after_begin, after_key, at_item, read_with, read, enough, is_all, validate_config_json,
}
use wasi.Config.Shape.Bits.{bit_or-lt}
use wasi.Config.Shape.Grammar.{
  Reads, a_string, a_boolean, a_number, a_config, a_mount, an_env, a_mount_list, Items, no_item,
  an_item,
}
use wasi.Config.Shape.Known.{is_object}
use wasi.Config.Shape.Rest.{
  Rest, Conforms, IsSound, one_bit, one_field, end_object-Rest, next_field-Found, same_tokens,
}

module _ (r : Task → List Token → Option (List Token)) (sound : IsSound r) where
  then_read-read :
      (task : Task) (o : Option (List Token)) (rest : List Token)
      → then_read r task o ≡ some rest
      → (behind : List Token) × (o ≡ some behind) × Conforms task behind rest
  then_read-read task none rest e = absurd (cc)
  then_read-read task (some behind) rest e = (behind, refl, sound task behind rest e)

  after_key-Rest :
      (kind : Kind) (seen : ℕ) (tokens : List Token) (o : Option (Kind × ℕ × List Token))
      (rest : List Token)
      → next_field kind seen tokens ≡ o
      → seen < 256
      → is_object kind ≡ true
      → after_key r kind o ≡ some rest
      → Rest kind seen tokens rest
  after_key-Rest kind seen tokens none rest found small object e = absurd (cc)
  after_key-Rest kind seen tokens (some (child, now, after)) rest found small object e =
      let f = next_field-Found kind seen tokens child now after found in
      let (behind, done, conforms) =
        then_read-read (object_rest kind now) (r (value child) after) rest e in
      let lt =
        bit_or-lt seen f.bit small
          (one_bit kind seen f.bit f.key child small object f.known f.unseen) in
      let later : Rest kind (bit_or seen f.bit) behind rest =
        subst (λ s. Rest kind s behind rest) f.marks
          (conforms (subst (λ s. s < 256) (sym f.marks) lt) object) in
      subst (λ t. Rest kind seen t rest) (sym f.in_front)
        (one_field kind seen f.bit f.key child small object f.known f.unseen after behind rest
          (sound (value child) after behind done) later)

  at_item-Conforms :
      (kind : Kind) (count : ℕ) (tokens rest : List Token)
      → at_item r kind count tokens ≡ some rest
      → Conforms (array_rest kind count) tokens rest
  at_item-Conforms kind count tokens rest e array few =
      elim (Bool-cases (leb (max_items kind) count)) [
        | inl full ↦ absurd (ground arith)
        | inr free ↦
            let (behind, done, conforms) =
              then_read-read (array_rest kind (suc count)) (r (value (item_of kind)) tokens) rest
                (ground arith) in
            let (n, items, fit) = conforms array (ground arith) in
            (
              suc n,
              an_item (sound (value (item_of kind)) tokens behind done) items,
              omega (arith, fit),
            )
      ]

  end_array-Conforms :
      (kind : Kind) (count : ℕ) (tokens rest : List Token)
      → end_array tokens ≡ some rest
      → Conforms (array_rest kind count) tokens rest
  unfolding end_array
  end_array-Conforms kind count (close_array ∷ tokens) rest e array few = (
    0,
    subst (λ t. Items (item_of kind) 0 (close_array ∷ tokens) (close_array ∷ t))
        (same_tokens tokens rest e) no_item,
    omega arith,
  )
  end_array-Conforms kind count [] rest e array few = absurd (cc)
  end_array-Conforms kind count (open_object ∷ tokens) rest e array few = absurd (cc)
  end_array-Conforms kind count (close_object ∷ tokens) rest e array few = absurd (cc)
  end_array-Conforms kind count (open_array ∷ tokens) rest e array few = absurd (cc)
  end_array-Conforms kind count (null ∷ tokens) rest e array few = absurd (cc)
  end_array-Conforms kind count (text s ∷ tokens) rest e array few = absurd (cc)
  end_array-Conforms kind count (boolean b ∷ tokens) rest e array few = absurd (cc)
  end_array-Conforms kind count (number n ∷ tokens) rest e array few = absurd (cc)

  value-Reads :
      (kind : Kind) (t : Token) (tokens rest : List Token)
      → after_begin r (begin kind t) tokens ≡ some rest
      → Reads kind (t ∷ tokens) rest
  unfolding begin
  value-Reads string_value (text s) tokens rest e =
      subst (λ u. Reads string_value (text s ∷ tokens) u) (same_tokens tokens rest e)
        (a_string s tokens)
  value-Reads bool_value (boolean b) tokens rest e =
      subst (λ u. Reads bool_value (boolean b ∷ tokens) u) (same_tokens tokens rest e)
        (a_boolean b tokens)
  value-Reads number_value (number n) tokens rest e =
      subst (λ u. Reads number_value (number n ∷ tokens) u) (same_tokens tokens rest e)
        (a_number n tokens)
  value-Reads config_object open_object tokens rest e =
      let o = sound (object_rest config_object 0) tokens rest e (omega arith) refl in
      a_config o.fields o.distinct
  value-Reads mount_object open_object tokens rest e =
      let o = sound (object_rest mount_object 0) tokens rest e (omega arith) refl in
      a_mount o.fields o.distinct (o.wants_guest refl refl) (o.wants_host refl refl)
  value-Reads env_array open_array tokens rest e =
      let (n, items, fit) = sound (array_rest env_array 0) tokens rest e refl (omega arith) in
      an_env items (omega (arith, fit))
  value-Reads mount_array open_array tokens rest e =
      let (n, items, fit) = sound (array_rest mount_array 0) tokens rest e refl (omega arith) in
      a_mount_list items (omega (arith, fit))
  value-Reads _ _ tokens rest e = absurd (cc)

  read_with-IsSound : IsSound (read_with r)
  unfolding read_with
  read_with-IsSound (value kind) [] rest e = absurd (cc)
  read_with-IsSound (value kind) (t ∷ tokens) rest e = value-Reads kind t tokens rest e
  read_with-IsSound (object_rest kind seen) tokens rest e = λ small object.
      elim (Bool-cases (has_more tokens)) [
        | inl more ↦
            after_key-Rest kind seen tokens (next_field kind seen tokens) rest refl small object
              (ground arith)
        | inr over ↦ end_object-Rest kind seen tokens rest small (ground arith)
      ]
  read_with-IsSound (array_rest kind count) tokens rest e = elim (Bool-cases (has_more tokens)) [
    | inl more ↦ at_item-Conforms kind count tokens rest (ground arith)
    | inr over ↦ end_array-Conforms kind count tokens rest (ground arith)
  ]

read-IsSound : (n : ℕ) → IsSound (read n)
unfolding read
read-IsSound zero task tokens rest e = absurd (cc)
read-IsSound (suc n) task tokens rest e =
    read_with-IsSound (read n) (read-IsSound n) task tokens rest e

all_read :
    (o : Option (List Token)) (clean_end : Bool)
    → is_all o clean_end ≡ true
    → (o ≡ some []) × (clean_end ≡ true)
all_read none clean_end h = absurd (cc)
all_read (some []) clean_end h = (refl, h)
all_read (some (t ∷ tokens)) clean_end h = absurd (cc)

pub validate_config_json-Reads :
    (tokens : List Token) (clean_end : Bool)
    → validate_config_json tokens clean_end ≡ true
    → Reads config_object tokens [] × (clean_end ≡ true)
unfolding validate_config_json
validate_config_json-Reads tokens clean_end h =
    let (all, clean) =
      all_read (read (suc (enough tokens)) (value config_object) tokens) clean_end h in
    (read-IsSound (suc (enough tokens)) (value config_object) tokens [] all, clean)
