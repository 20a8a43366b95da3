-- ===== src/Paths/Leaf.antt =====
-- `renameLeaf` borrows a slice of the original path; it is the leaf with its slash all the same.
use wasi.Prelude.{
  ℕ, zero, suc, ◌+◌, ◌-◌, ◌<◌, ◌≤◌, true, ◌≡◌, refl, sym, ap, subst, ◌∙◌, Option, none, some, [],
  ◌∷◌, ◌++◌, ◌==◌, length, take, drop, get_elem?, length-take, arith, if◌then◌else◌, Option-cases,
  Bool-cases, inl, inr,
}
use wasi.Host.{Bytes}
use wasi.Paths.{
  bytes_eq, dot, slash, last_slash, part_start, subtext, rename_loop, rename_leaf, ends_with_slash,
}

pub bytes_eq→eq : (s t : Bytes) → bytes_eq s t ≡ true → s ≡ t
unfolding bytes_eq
bytes_eq→eq [] [] h = refl
bytes_eq→eq [] (d ∷ t) h = cc
bytes_eq→eq (c ∷ s) [] h = cc
bytes_eq→eq (c ∷ s) (d ∷ t) h = ground (arith, bytes_eq→eq s t)

last_slash-found :
    (s : Bytes) (n i : ℕ) → last_slash (take n s) ≡ some i → (i < n) × (get_elem? s i ≡ some 47)
unfolding last_slash
last_slash-found s zero i e = absurd (cc)
last_slash-found [] (suc n) i e = absurd (cc)
last_slash-found (c ∷ s) (suc n) i e = elim (Option-cases (last_slash (take n s))) [
  | inl absent ↦ first i (subst (λ o. wrap o ≡ some i) absent e)
  | inr (j, found) ↦ later i j (last_slash-found s n j found) (subst (λ o. wrap o ≡ some i) found e)
]
  where
    wrap : Option ℕ → Option ℕ
    wrap none = if c == 47 then some 0 else none
    wrap (some k) = some (suc k)

    first : (i : ℕ) → wrap none ≡ some i → (i < suc n) × (get_elem? (c ∷ s) i ≡ some 47)
    first zero h = (omega arith, ground arith)
    first (suc i) h = absurd (ground arith)

    later :
        (i j : ℕ)
        → (j < n) × (get_elem? s j ≡ some 47)
        → wrap (some j) ≡ some i
        → (i < suc n) × (get_elem? (c ∷ s) i ≡ some 47)
    later zero j (lt, at) h = absurd (ground arith)
    later (suc i) j (lt, at) h =
        let same : j ≡ i = ground arith in
        (omega arith, subst (λ k. get_elem? s k ≡ some 47) same at)

get_elem-lt : (s : Bytes) (i c : ℕ) → get_elem? s i ≡ some c → i < length s
get_elem-lt [] i c e = absurd (cc)
get_elem-lt (d ∷ s) zero c e = omega arith
get_elem-lt (d ∷ s) (suc i) c e = omega (arith, get_elem-lt s i c e)

take-next : (s : Bytes) (i c : ℕ) → get_elem? s i ≡ some c → take (suc i) s ≡ take i s ++ (c ∷ [])
take-next [] i c e = absurd (cc)
take-next (d ∷ s) zero c e = ground arith
take-next (d ∷ s) (suc i) c e = ap (λ t. d ∷ t) (take-next s i c e)

drop-append : (n : ℕ) (xs ys : Bytes) → n ≤ length xs → drop n (xs ++ ys) ≡ drop n xs ++ ys
drop-append zero xs ys h = refl
drop-append (suc n) [] ys h = absurd (omega arith)
drop-append (suc n) (x ∷ xs) ys h = drop-append n xs ys (omega arith)

-- The slice up to a slash, with the slash.
subtext-slash :
    (s : Bytes) (start end : ℕ)
    → start ≤ end
    → get_elem? s end ≡ some 47
    → subtext start (suc end) s ≡ subtext start end s ++ slash
unfolding subtext
subtext-slash s start end le at = rw (take-next s end 47 at) (
    drop-append start (take end s) slash
      (omega (arith, length-take end s, get_elem-lt s end 47 at)))

-- The end of a round is 0, or the index of a slash.
abbrev AtSlash : Bytes → ℕ → Type 0
AtSlash s zero = Unit
AtSlash s (suc end) = get_elem? s (suc end) ≡ some 47

at_slash : (s : Bytes) (i : ℕ) → get_elem? s i ≡ some 47 → AtSlash s i
at_slash s zero at = tt
at_slash s (suc i) at = at

next_end :
    (s : Bytes) (end : ℕ) (o : Option ℕ)
    → last_slash (take end s) ≡ o
    → (part_start o ≤ end) × (part_start o - 1 ≤ end - 1) × AtSlash s (part_start o - 1)
unfolding part_start
next_end s end none e = (omega arith, omega arith, tt)
next_end s end (some i) e =
    let (lt, at) = last_slash-found s end i e in
    (omega arith, omega arith, subst (AtSlash s) (omega arith) (at_slash s i at))

rename_loop_lem :
    (n end : ℕ) (original leaf : Bytes)
    → end < n
    → AtSlash original end
    → rename_loop n end original leaf ≡ leaf ++ slash
unfolding rename_loop
rename_loop_lem zero end original leaf lt at = absurd (omega arith)
rename_loop_lem (suc n) zero original leaf lt at = refl
rename_loop_lem (suc n) (suc before) original leaf lt at =
    let end = suc before in
    let o = last_slash (take end original) in
    let (le, shorter, at') = next_end original end o refl in
    elim (Bool-cases (bytes_eq (subtext (part_start o) end original) leaf)) [
      | inl same ↦ rw same (
          slice_up (part_start o) le
          ∙ ap (λ t. t ++ slash) (bytes_eq→eq (subtext (part_start o) end original) leaf same))
      | inr other ↦ rw other (rename_loop_lem n (part_start o - 1) original leaf (omega arith) at')
    ]
  where
    slice_up :
        (start : ℕ)
        → start ≤ suc before
        → subtext start (suc before + 1) original ≡ subtext start (suc before) original ++ slash
    slice_up start le =
        let next : suc before + 1 ≡ suc (suc before) = omega arith in
        rw next (subtext-slash original start (suc before) le at)

ends_with_slash-last :
    (c : ℕ) (s : Bytes) → ends_with_slash (c ∷ s) ≡ true → get_elem? (c ∷ s) (length s) ≡ some 47
unfolding ends_with_slash
ends_with_slash-last c [] h = ground arith
ends_with_slash-last c (d ∷ s) h = ends_with_slash-last d s h

slashed :
    (original leaf : Bytes)
    → ends_with_slash original ≡ true
    → rename_loop (length original) (length original - 1) original leaf ≡ leaf ++ slash
unfolding ends_with_slash
slashed [] leaf h = absurd (cc)
slashed (c ∷ s) leaf h =
    let last : length (c ∷ s) - 1 ≡ length s = omega arith in
    rename_loop_lem (length (c ∷ s)) (length (c ∷ s) - 1) (c ∷ s) leaf (omega arith) (
      subst (AtSlash (c ∷ s)) (sym last) (at_slash (c ∷ s) (length s) (ends_with_slash-last c s h)))

-- Whatever leaf it is given, the loop of `renameLeaf` ends within as many rounds as the original
-- path has bytes, and `renameLeaf` returns the leaf, with a slash behind it exactly where the
-- original path ended in one: the slice that it borrows is that text.
pub rename_leaf_lem :
    (original leaf : Bytes)
    → rename_leaf original leaf ≡ (if ends_with_slash original then leaf ++ slash else leaf)
unfolding rename_leaf
rename_leaf_lem original leaf = elim (Bool-cases (ends_with_slash original)) [
  | inl ends ↦ elim (Bool-cases (bytes_eq leaf dot)) [
    | inl same ↦ rw (ends, same) (ap (λ t. t ++ slash) (sym (bytes_eq→eq leaf dot same)))
    | inr other ↦ rw (ends, other) (slashed original leaf ends)
  ]
  | inr plain ↦ rw plain refl
]
