-- ===== src/Config/Shape/Rest.antt =====
-- The rest of an object behind the fields with some bits, in `validateConfigJSON` of
-- internal/core/core.go.
use wasi.Prelude.{
  ℕ, ◌+◌, ◌≤◌, ◌<◌, ◌≡◌, ◌≢◌, refl, sym, subst, true, false, Bool-cases, inl, inr, Option, none,
  some, List, [], ◌∷◌, All, bit_and, bit_or, ◌==◌, arith,
}
use wasi.Host.{Bytes}
use wasi.Config.Shape.{
  Token, open_object, close_object, open_array, close_array, null, text, boolean, number, Kind,
  mount_object, fields_of, field, item_of, max_items, is_mount, Task, value, object_rest,
  array_rest, end_object, new_field, next_field,
}
use wasi.Config.Shape.Bits.{
  is_in, bits, has, has-bit_or, has-bit_or-kept, has-bit_or-other, has-both,
}
use wasi.Config.Shape.Grammar.{guest, host, Has, Distinct, Reads, Fields, no_field, a_field, Items}
use wasi.Config.Shape.Known.{Marked, is_object, is_array, field-Known, Fresh}

-- The rest of an object.
pub record Rest (kind : Kind) (seen : ℕ) (tokens rest : List Token) : Type 0 where
  pub keys : List Bytes
  pub fields : Fields kind keys tokens (close_object ∷ rest)
  pub distinct : Distinct keys
  pub fresh : All (Fresh kind seen) keys
  pub wants_guest : kind ≡ mount_object → has seen 1 ≡ false → Has guest keys
  pub wants_host : kind ≡ mount_object → has seen 2 ≡ false → Has host keys

abbrev pub Conforms : Task → List Token → List Token → Type 0
Conforms (value kind) tokens rest = Reads kind tokens rest
Conforms (object_rest kind seen) tokens rest =
    seen < 256 → is_object kind ≡ true → Rest kind seen tokens rest
Conforms (array_rest kind count) tokens rest =
    is_array kind ≡ true
    → count ≤ max_items kind
    → (n : ℕ) × Items (item_of kind) n tokens (close_array ∷ rest) × (count + n ≤ max_items kind)

abbrev pub IsSound : (Task → List Token → Option (List Token)) → Type 0
IsSound r =
    (task : Task) (tokens rest : List Token) → r task tokens ≡ some rest → Conforms task tokens rest

module _ (kind : Kind) (seen bit : ℕ) (key : Bytes) (child : Kind) (small : seen < 256)
    (object : is_object kind ≡ true) (known : field key (fields_of kind) ≡ some (bit, child))
    (unseen : has seen bit ≡ false) where
  pub one_bit : is_in bit bits ≡ true
  one_bit = (field-Known kind key bit child object known).1

  -- A key that is fresh behind this field was fresh before it, and is another one.
  fresh-before : (k : Bytes) → Fresh kind (bit_or seen bit) k → Fresh kind seen k
  fresh-before k f b c e =
      has-bit_or-kept seen bit small one_bit b (field-Known kind k b c object e).1 (f b c e)

  fresh-other : (k : Bytes) → Fresh kind (bit_or seen bit) k → key ≢ k
  fresh-other k f same =
      let there =
        f bit child (subst (λ t. field t (fields_of kind) ≡ some (bit, child)) same known) in
      absurd (ground (arith, has-bit_or seen bit small one_bit))

  all-before :
      (keys : List Bytes) → All (Fresh kind (bit_or seen bit)) keys → All (Fresh kind seen) keys
  all-before [] all = tt
  all-before (k ∷ keys) (f, all) = (fresh-before k f, all-before keys all)

  all-other :
      (keys : List Bytes) → All (Fresh kind (bit_or seen bit)) keys → All (λ k. key ≢ k) keys
  all-other [] all = tt
  all-other (k ∷ keys) (f, all) = (fresh-other k f, all-other keys all)

  this-fresh : Fresh kind seen key
  this-fresh b c e =
      let same : bit ≡ b = same_bit b c e in subst (λ x. has seen x ≡ false) same unseen
    where
      same_bit : (b : ℕ) (c : Kind) → field key (fields_of kind) ≡ some (b, c) → bit ≡ b
      same_bit b c e = cc

  pub one_field :
      (tokens behind rest : List Token)
      → Reads child tokens behind
      → Rest kind (bit_or seen bit) behind rest
      → Rest kind seen (text key ∷ tokens) rest
  one_field tokens behind rest reads r = record {
    keys = key ∷ r.keys;
    fields = a_field (field-Known kind key bit child object known).0 reads r.fields;
    distinct = (all-other r.keys r.fresh, r.distinct);
    fresh = (this-fresh, all-before r.keys r.fresh);
    wants_guest = λ mount no. elim (Bool-cases (bit == 1)) [
      | inl guest_bit ↦ Has-first guest (marked mount).0 (ground arith)
      | inr other ↦
          Has.there
            (r.wants_guest mount (has-bit_or-other seen bit small one_bit 1 refl (ground arith) no))
    ];
    wants_host = λ mount no. elim (Bool-cases (bit == 2)) [
      | inl host_bit ↦ Has-first host (marked mount).1 (ground arith)
      | inr other ↦
          Has.there
            (r.wants_host mount (has-bit_or-other seen bit small one_bit 2 refl (ground arith) no))
    ];
  }
    where
      marked : kind ≡ mount_object → Marked mount_object key bit
      marked mount =
          subst (λ k. Marked k key bit) mount (field-Known kind key bit child object known).2

      Has-first :
          {n : ℕ} (name : Bytes) → (bit ≡ n → key ≡ name) → bit ≡ n → Has name (key ∷ r.keys)
      Has-first name named e = subst (λ k. Has name (k ∷ r.keys)) (sym (named e)) Has.here

pub end_object-Rest :
    (kind : Kind) (seen : ℕ) (tokens rest : List Token)
    → seen < 256
    → end_object kind seen tokens ≡ some rest
    → Rest kind seen tokens rest
unfolding end_object
end_object-Rest kind seen (close_object ∷ tokens) rest small e = record {
  keys = [];
  fields = subst (λ t. Fields kind [] (close_object ∷ tokens) (close_object ∷ t)) same no_field;
  distinct = tt;
  fresh = tt;
  wants_guest = λ mount no. let full = has-both seen small (both mount) in absurd (ground arith);
  wants_host = λ mount no. let full = has-both seen small (both mount) in absurd (ground arith);
}
  where
    same : tokens ≡ rest
    same = ground arith

    both : kind ≡ mount_object → (bit_and seen 3 == 3) ≡ true
    both mount =
        let it : is_mount kind ≡ true = subst (λ k. is_mount k ≡ true) (sym mount) refl in
        ground arith
end_object-Rest kind seen [] rest small e = absurd (cc)
end_object-Rest kind seen (open_object ∷ tokens) rest small e = absurd (cc)
end_object-Rest kind seen (open_array ∷ tokens) rest small e = absurd (cc)
end_object-Rest kind seen (close_array ∷ tokens) rest small e = absurd (cc)
end_object-Rest kind seen (null ∷ tokens) rest small e = absurd (cc)
end_object-Rest kind seen (text s ∷ tokens) rest small e = absurd (cc)
end_object-Rest kind seen (boolean b ∷ tokens) rest small e = absurd (cc)
end_object-Rest kind seen (number n ∷ tokens) rest small e = absurd (cc)

-- What `next_field` found: the key in front, and its field, which is new.
pub record Found (kind : Kind) (seen : ℕ) (tokens : List Token) (child : Kind) (now : ℕ)
    (behind : List Token) : Type 0 where
  pub key : Bytes
  pub bit : ℕ
  pub in_front : tokens ≡ text key ∷ behind
  pub known : field key (fields_of kind) ≡ some (bit, child)
  pub unseen : has seen bit ≡ false
  pub marks : now ≡ bit_or seen bit

pub next_field-Found :
    (kind : Kind) (seen : ℕ) (tokens : List Token) (child : Kind) (now : ℕ) (behind : List Token)
    → next_field kind seen tokens ≡ some (child, now, behind)
    → Found kind seen tokens child now behind
unfolding next_field
next_field-Found kind seen (text key ∷ tokens) child now behind e =
    by_field (field key (fields_of kind)) refl (elim_field e)
  where
    elim_field :
        next_field kind seen (text key ∷ tokens) ≡ some (child, now, behind)
        → new_field seen (field key (fields_of kind)) tokens ≡ some (child, now, behind)
    elim_field h = h

    by_field :
        (o : Option (ℕ × Kind))
        → field key (fields_of kind) ≡ o
        → new_field seen o tokens ≡ some (child, now, behind)
        → Found kind seen (text key ∷ tokens) child now behind
    by_field none known h = absurd (cc)
    by_field (some (bit, c)) known h = elim (Bool-cases (bit_and seen bit == 0)) [
      | inr old ↦ absurd (ground arith)
      | inl new ↦
          let given : (◌≡◌ {A = Option (Kind × ℕ × List Token)} (some (c, bit_or seen bit, tokens))
              (some (child, now, behind))) =
            ground arith in
          record {
            key = key;
            bit = bit;
            in_front = third given;
            known = subst (λ k. field key (fields_of kind) ≡ some (bit, k)) (first given) known;
            unseen = ground arith;
            marks = second given;
          }
    ]
      where
        first :
            (◌≡◌ {A = Option (Kind × ℕ × List Token)}
              (some (c, bit_or seen bit, tokens))
              (some (child, now, behind)))
            → c ≡ child
        first g = cc

        second :
            (◌≡◌ {A = Option (Kind × ℕ × List Token)}
              (some (c, bit_or seen bit, tokens))
              (some (child, now, behind)))
            → now ≡ bit_or seen bit
        second g = cc

        third :
            (◌≡◌ {A = Option (Kind × ℕ × List Token)}
              (some (c, bit_or seen bit, tokens))
              (some (child, now, behind)))
            → (◌≡◌ {A = List Token} (text key ∷ tokens) (text key ∷ behind))
        third g = cc
next_field-Found kind seen [] child now behind e = absurd (cc)
next_field-Found kind seen (open_object ∷ tokens) child now behind e = absurd (cc)
next_field-Found kind seen (close_object ∷ tokens) child now behind e = absurd (cc)
next_field-Found kind seen (open_array ∷ tokens) child now behind e = absurd (cc)
next_field-Found kind seen (close_array ∷ tokens) child now behind e = absurd (cc)
next_field-Found kind seen (null ∷ tokens) child now behind e = absurd (cc)
next_field-Found kind seen (boolean b ∷ tokens) child now behind e = absurd (cc)
next_field-Found kind seen (number n ∷ tokens) child now behind e = absurd (cc)

pub same_tokens :
    (tokens rest : List Token)
    → (◌≡◌ {A = Option (List Token)} (some tokens) (some rest))
    → tokens ≡ rest
same_tokens tokens rest h = cc
