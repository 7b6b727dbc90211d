-- ===== src/Vfs/PathString/Tests.antt =====
-- Tests of src/lib/storage/vfs/rust/src/path.rs.
use fuchsia_storage.Shared.{◌||◌, ◌≡◌, refl, true, List, [], ◌∷◌, none, some, if◌then◌else◌}
use fuchsia_storage.Vfs.Status.{ok, err, reject, invalid_args, bad_path}
use fuchsia_storage.Vfs.Directory.Entries.{Name, name_eq}
use fuchsia_storage.Vfs.PathString.{
  PathLimits, PathString, dot_path, checked_parts, validate_and_split, is_single_component, next,
}
use fuchsia_storage.Vfs.PathString.Walk.{Yields}
use fuchsia_storage.Vfs.PathString.Valid.{AllComponents, validate_and_split-Yields}

abbrev limits : PathLimits
limits = record { max_path = 4095; path_max = 4096; max_filename = 255 }

-- "/a/b/"
abbrev a_b : Name
a_b = b'/' ∷ b'a' ∷ b'/' ∷ b'b' ∷ b'/' ∷ []

-- "b/"
abbrev b_slash : Name
b_slash = b'b' ∷ b'/' ∷ []

abbrev a_b_path : PathString
a_b_path = record { is_dir = true; inner = a_b; next_index = 1 }

abbrev b_path : PathString
b_path = record { is_dir = true; inner = b_slash; next_index = 0 }

validates : validate_and_split limits a_b ≡ ok a_b_path
unfolding validate_and_split reject
validates = refl

refused :
    (validate_and_split limits [] ≡ err invalid_args)
    × (validate_and_split limits (b'/' ∷ b'/' ∷ []) ≡ err invalid_args)
    × (validate_and_split limits (b'.' ∷ b'.' ∷ []) ≡ err invalid_args)
    × (validate_and_split (record limits { max_path = 4 }) a_b ≡ err bad_path)
unfolding validate_and_split reject
refused = (refl, refl, refl, refl)

dots :
    (validate_and_split limits (b'.' ∷ []) ≡ ok dot_path)
    × (validate_and_split limits (b'/' ∷ []) ≡ ok dot_path)
unfolding validate_and_split reject
dots = (refl, refl)

walks :
    (next a_b_path ≡ (record a_b_path { next_index = 3 }, some (b'a' ∷ [])))
    × (next (record a_b_path { next_index = 3 })
        ≡ (record a_b_path { next_index = 5 }, some (b'b' ∷ [])))
    × (next (record a_b_path { next_index = 5 }) ≡ (record a_b_path { next_index = 5 }, none))
unfolding next
walks = (refl, refl, refl)

-- A trailing slash does not make a second component.
single : is_single_component b_path ≡ true
unfolding is_single_component
single = refl

validate_and_split-Yields_example :
    (cs : List Name) × Yields a_b_path cs
    × AllComponents limits cs
    × (cs ≡ (if name_eq a_b (b'.' ∷ []) || name_eq a_b (b'/' ∷ []) then [] else checked_parts a_b))
validate_and_split-Yields_example = validate_and_split-Yields limits a_b a_b_path validates
