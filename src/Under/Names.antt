-- ===== src/Under/Names.antt =====
-- The names that the walk of p2/path.go resolves: their parent steps, through strings.Split and Join
-- and the functions of package path.
use wasi.Prelude.{
  ℕ, suc, ◌+◌, ◌≡◌, refl, subst, ap, Bool, false, not, ◌&&◌, ◌||◌, Bool-cases, some, inl, inr, List,
  [], ◌∷◌, ◌++◌, All, if◌then◌else◌, arith, Option-cases,
}
use wasi.Host.{Bytes}
use wasi.Paths.{
  split, extend_first, bytes_eq, dot, dot_dot, split_last, extend_before, starts_with_slash,
}
use wasi.Text.Clean.{clean, dir, join, keep, keep_all, reverse_onto, or_dot, up_to_slash}
use wasi.Paths.Split.{has_slash, Plain, split-slash, split-plain}
use wasi.Walk.Confined.{Single, dot-Single}

-- How many parts are "..".
abbrev pub ups : List Bytes → ℕ
ups [] = 0
ups (part ∷ parts) = if bytes_eq part dot_dot then suc (ups parts) else ups parts

pub ups-append : (xs ys : List Bytes) → ups (xs ++ ys) ≡ ups xs + ups ys
ups-append [] ys = omega arith
ups-append (x ∷ xs) ys = ground (arith, ups-append xs ys)

pub ups-Single : (parts : List Bytes) → All Single parts → ups parts ≡ 0
ups-Single [] all = refl
ups-Single (part ∷ parts) ((plain, named), all) = rw named (ups-Single parts all)

pub All-append :
    {A : Type 0} (P : A → Type 0) (xs ys : List A) → All P xs → All P ys → All P (xs ++ ys)
All-append P [] ys all more = more
All-append P (x ∷ xs) ys (p, all) more = (p, All-append P xs ys all more)

All-before : {A : Type 0} (P : A → Type 0) (xs ys : List A) → All P (xs ++ ys) → All P xs
All-before P [] ys all = tt
All-before P (x ∷ xs) ys (p, all) = (p, All-before P xs ys all)

pub ups-join : (parts : List Bytes) → All Plain parts → ups (split (join parts)) ≡ ups parts
unfolding join split bytes_eq
ups-join [] all = refl
ups-join (part ∷ []) (plain, all) = ap ups (split-plain part plain)
ups-join (part ∷ next ∷ parts) (plain, all) =
    rw (split-slash part (join (next ∷ parts)))
      (rw (split-plain part plain) (ground (arith, ups-join (next ∷ parts) all)))

pub join-Single : (parts : List Bytes) → All Single parts → All Single (split (join parts))
unfolding join split bytes_eq has_slash
join-Single [] all = ((refl, refl), tt)
join-Single (part ∷ []) ((plain, named), all) = rw (split-plain part plain) ((plain, named), tt)
join-Single (part ∷ next ∷ parts) ((plain, named), all) =
    rw (split-slash part (join (next ∷ parts)))
      (rw (split-plain part plain) ((plain, named), join-Single (next ∷ parts) all))

keep-Single :
    (rooted : Bool) (kept : List Bytes) (part : Bytes)
    → All Single kept
    → Single part
    → All Single (keep rooted kept part)
unfolding keep
keep-Single rooted [] part all single = elim (Bool-cases (bytes_eq part [] || bytes_eq part dot)) [
  | inl e ↦ rw e tt
  | inr e ↦ elim (Bool-cases (bytes_eq part dot_dot && rooted)) [
    | inl up ↦ rw (e, up) tt
    | inr down ↦ rw (e, down) (single, tt)
  ]
]
keep-Single rooted (top ∷ kept) part (s, all) single =
    elim (Bool-cases (bytes_eq part [] || bytes_eq part dot)) [
      | inl e ↦ rw e (s, all)
      | inr e ↦ elim (Bool-cases (not (bytes_eq part dot_dot) || bytes_eq top dot_dot)) [
        | inl down ↦ rw (e, down) (single, (s, all))
        | inr up ↦ rw (e, up) all
      ]
    ]

keep_all-Single :
    (rooted : Bool) (kept parts : List Bytes)
    → All Single kept
    → All Single parts
    → All Single (keep_all rooted kept parts)
unfolding keep_all
keep_all-Single rooted kept [] all single = all
keep_all-Single rooted kept (part ∷ parts) all (s, single) =
    keep_all-Single rooted (keep rooted kept part) parts (keep-Single rooted kept part all s) single

reverse_onto-Single :
    (parts tail : List Bytes)
    → All Single parts
    → All Single tail
    → All Single (reverse_onto parts tail)
reverse_onto-Single [] tail all more = more
reverse_onto-Single (part ∷ parts) tail (s, all) more =
    reverse_onto-Single parts (part ∷ tail) all (s, more)

or_dot-Single : (s : Bytes) → All Single (split s) → All Single (split (or_dot s))
unfolding split extend_first
or_dot-Single [] all = (dot-Single, tt)
or_dot-Single (c ∷ s) all = all

abbrev KeptIn : Bytes → Bool → Type 0
KeptIn s rooted = All Single (split (join (reverse_onto (keep_all rooted [] (split s)) [])))

pub clean-Single : (s : Bytes) → All Single (split s) → All Single (split (clean s))
unfolding clean split has_slash bytes_eq
clean-Single s all =
    let kept = keep_all (starts_with_slash s) [] (split s) in
    let joined = join-Single (reverse_onto kept []) (
      reverse_onto-Single kept [] (keep_all-Single (starts_with_slash s) [] (split s) tt all) tt) in
    elim (Bool-cases (starts_with_slash s)) [
      | inl rooted ↦ rw rooted ((refl, refl), subst (KeptIn s) rooted joined)
      | inr plain ↦ rw plain (
          or_dot-Single (join (reverse_onto (keep_all false [] (split s)) []))
            (subst (KeptIn s) plain joined))
    ]

split_last-append :
    (s before leaf : Bytes) → split_last s ≡ some (before, leaf) → s ≡ before ++ (47 ∷ leaf)
unfolding split_last extend_before
split_last-append [] before leaf e = absurd (cc)
split_last-append (c ∷ s) before leaf e = elim (Option-cases (split_last s)) [
  | inl none_left ↦ ground (arith)
  | inr ((b, l), found) ↦ ground (arith, split_last-append s b l found)
]

pub dir-Single : (s : Bytes) → All Single (split s) → All Single (split (dir s))
unfolding dir up_to_slash split bytes_eq has_slash
dir-Single s all = clean-Single _ (elim (Option-cases (split_last s)) [
  | inl e ↦ rw e ((refl, refl), tt)
  | inr ((before, leaf), e) ↦
      let halves =
        subst (λ parts. All Single parts) (split-slash before leaf)
          (subst (λ t. All Single (split t)) (split_last-append s before leaf e) all) in
      rw e (
        rw (split-slash before []) (
          All-append Single (split before) ([] ∷ [])
            (All-before Single (split before) (split leaf) halves) ((refl, refl), tt)))
])
