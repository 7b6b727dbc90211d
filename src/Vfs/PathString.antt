-- ===== src/Vfs/PathString.antt =====
-- Paths: src/lib/storage/vfs/rust/src/path.rs. A string is the list of its bytes.
pub mod Walk
pub mod Valid
mod Tests
use fuchsia_storage.Shared.{
  ℕ, zero, suc, ◌+◌, ◌-◌, Bool, true, false, not, ◌&&◌, ◌||◌, List, [], ◌∷◌, ◌++◌, Option, none,
  some, ◌==◌, ltb, leb, min, length, take, drop, if◌then◌else◌,
}
use fuchsia_storage.Vfs.Status.{Result, ok, err, reject, bad_path, invalid_args}
use fuchsia_storage.Vfs.Directory.Entries.{Name, name_eq}
use fuchsia_storage.Vfs.Directory.Simple.{contains_slash}

-- `MAX_PATH` and `MAX_FILENAME` of fuchsia.io and `PATH_MAX` of libc.
pub record PathLimits : Type 0 where
  pub max_path : ℕ
  pub path_max : ℕ
  pub max_filename : ℕ

-- `Path`
pub record PathString : Type 0 where
  pub is_dir : Bool
  pub inner : Name
  pub next_index : ℕ

-- `Path::dot`
abbrev pub dot_path : PathString
dot_path = record { is_dir = false; inner = []; next_index = 0 }

-- `str::find('/')`
unfoldable pub find_slash : Name → Option ℕ
find_slash [] = none
find_slash (c ∷ s) =
    let rest = find_slash s in
    if c == b'/' then some 0 else elim rest [ none ↦ none | some i ↦ some (suc i) ]

abbrev pub cons_first : ℕ → List Name → List Name
cons_first c [] = (c ∷ []) ∷ []
cons_first c (x ∷ xs) = (c ∷ x) ∷ xs

-- `str::split('/')`
unfoldable pub split_slash : Name → List Name
split_slash [] = [] ∷ []
split_slash (c ∷ s) = let rest = split_slash s in if c == b'/' then [] ∷ rest else cons_first c rest

-- `next_back` on the parts that are left
unfoldable pub without_last : List Name → List Name
without_last [] = []
without_last (x ∷ []) = []
without_last (x ∷ y ∷ xs) = x ∷ without_last (y ∷ xs)

unfoldable pub ends_with_slash : Name → Bool
ends_with_slash [] = false
ends_with_slash (c ∷ []) = c == b'/'
ends_with_slash (c ∷ d ∷ s) = ends_with_slash (d ∷ s)

abbrev pub starts_with_slash : Name → Bool
starts_with_slash [] = false
starts_with_slash (c ∷ s) = c == b'/'

abbrev pub is_empty_string : Name → Bool
is_empty_string [] = true
is_empty_string (c ∷ s) = false

-- The loop over the parts, before `m`.
unfoldable pub check_components {ℓ} : {A : Type ℓ} → PathLimits → List Name → Result A → Result A
unfolding name_eq
check_components limits [] m = m
check_components limits (c ∷ cs) m =
    reject (is_empty_string c || name_eq c (b'.' ∷ b'.' ∷ []) || name_eq c (b'.' ∷ [])) invalid_args
      (reject (ltb limits.max_filename (length c)) bad_path (check_components limits cs m))

-- The parts that are checked of a path that is neither "." nor "/", with the first index.
abbrev pub first_index : Name → ℕ
first_index path = if ltb 1 (length path) && starts_with_slash path then 1 else 0

abbrev pub checked_parts : Name → List Name
checked_parts path =
    if ends_with_slash path
    then without_last (split_slash (drop (first_index path) path))
    else split_slash (drop (first_index path) path)

unfoldable pub validate_and_split : PathLimits → Name → Result PathString
unfolding check_components split_slash without_last ends_with_slash name_eq
validate_and_split limits path =
    reject (ltb (min limits.max_path (limits.path_max - 1)) (length path)) bad_path (
      if name_eq path (b'.' ∷ []) || name_eq path (b'/' ∷ [])
      then ok dot_path
      else check_components limits (checked_parts path) (
          ok (record {
            is_dir = ends_with_slash path;
            inner = path;
            next_index = first_index path;
          })))

-- The rest of the string, `inner[next..]`.
abbrev pub rest_of : PathString → Name
rest_of p = drop p.next_index p.inner

abbrev pub is_empty : PathString → Bool
is_empty p = leb (length p.inner) p.next_index

unfoldable pub is_single_component : PathString → Bool
unfolding contains_slash
is_single_component p =
    let end = if p.is_dir then length p.inner - 1 else length p.inner in
    ltb p.next_index (length p.inner)
    && not (contains_slash (take (end - p.next_index) (rest_of p)))

abbrev next_found : PathString → Option ℕ → PathString × Option Name
next_found p (some i) = (record p { next_index = p.next_index + i + 1 }, some (take i (rest_of p)))
next_found p none =
    if is_empty p then (p, none) else (record p { next_index = length p.inner }, some (rest_of p))

-- `next_with_ref`; `next` is its second part.
unfoldable pub next : PathString → PathString × Option Name
unfolding find_slash
next p = next_found p (find_slash (rest_of p))

abbrev peek_found : PathString → Option ℕ → Option Name
peek_found p (some i) = some (take i (rest_of p))
peek_found p none = if is_empty p then none else some (rest_of p)

unfoldable pub peek : PathString → Option Name
unfolding find_slash
peek p = peek_found p (find_slash (rest_of p))

abbrev pub into_string : PathString → Name
into_string p = rest_of p

abbrev pub remainder : PathString → Name
remainder p = if is_empty p then b'.' ∷ [] else rest_of p

abbrev pub is_dot : PathString → Bool
is_dot p = is_empty_string p.inner

-- `eq` of `PartialEq`
abbrev pub same_path : PathString → PathString → Bool
same_path p q = name_eq (remainder p) (remainder q)
