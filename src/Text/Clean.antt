-- ===== src/Text/Clean.antt =====
-- path.Clean, path.Dir and the joins of package path on slash-separated bytes. package filepath does
-- the same on Linux.
use wasi.Prelude.{
  Bool, not, Option, none, some, ◌&&◌, ◌||◌, List, [], ◌∷◌, ◌++◌, ◌≡◌, refl, if◌then◌else◌,
}
use wasi.Host.{Bytes}
use wasi.Paths.{bytes_eq, dot, dot_dot, split, split_last, starts_with_slash}

-- strings.Join(parts, "/")
unfoldable pub join : List Bytes → Bytes
join [] = []
join (part ∷ []) = part
join (part ∷ next ∷ parts) = part ++ (47 ∷ join (next ∷ parts))

-- The parts that are kept, the last first. A step up takes back a part, unless that is one up too;
-- at the root it goes nowhere.
unfoldable pub keep : Bool → List Bytes → Bytes → List Bytes
unfolding bytes_eq
keep rooted [] part =
    if bytes_eq part [] || bytes_eq part dot
    then []
    else if bytes_eq part dot_dot && rooted
    then []
    else part ∷ []
keep rooted (top ∷ kept) part =
    if bytes_eq part [] || bytes_eq part dot
    then top ∷ kept
    else if not (bytes_eq part dot_dot) || bytes_eq top dot_dot
    then part ∷ top ∷ kept
    else kept

unfoldable pub keep_all : Bool → List Bytes → List Bytes → List Bytes
unfolding keep
keep_all rooted kept [] = kept
keep_all rooted kept (part ∷ parts) = keep_all rooted (keep rooted kept part) parts

abbrev pub reverse_onto : List Bytes → List Bytes → List Bytes
reverse_onto [] tail = tail
reverse_onto (part ∷ parts) tail = reverse_onto parts (part ∷ tail)

abbrev pub or_dot : Bytes → Bytes
or_dot [] = dot
or_dot (c ∷ s) = c ∷ s

unfoldable pub clean : Bytes → Bytes
unfolding keep_all join split
clean s =
    let kept = join (reverse_onto (keep_all (starts_with_slash s) [] (split s)) []) in
    if starts_with_slash s then 47 ∷ kept else or_dot kept

-- path.Split's directory: the text up to the last slash, that included.
unfoldable pub up_to_slash : Option (Bytes × Bytes) → Bytes
up_to_slash none = []
up_to_slash (some (before, leaf)) = before ++ (47 ∷ [])

-- path.Dir
unfoldable pub dir : Bytes → Bytes
unfolding up_to_slash
dir s = clean (up_to_slash (split_last s))

-- "a/./b/../c/" is "a/c".
clean_up : clean (97 ∷ 47 ∷ 46 ∷ 47 ∷ 98 ∷ 47 ∷ 46 ∷ 46 ∷ 47 ∷ 99 ∷ 47 ∷ []) ≡ 97 ∷ 47 ∷ 99 ∷ []
unfolding clean wasi.Paths.extend_first
clean_up = refl
