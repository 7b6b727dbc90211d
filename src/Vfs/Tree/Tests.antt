-- ===== src/Vfs/Tree/Tests.antt =====
-- Tests of src/lib/storage/vfs/rust/src/tree_builder.rs.
use fuchsia_storage.Shared.{◌≡◌, refl, [], ◌∷◌, some, if◌then◌else◌, arith}
use fuchsia_storage.Vfs.Directory.Entries.{Name, name_eq}
use fuchsia_storage.Vfs.Directory.Simple.{contains_slash}
use fuchsia_storage.Vfs.Tree.{
  TreeBuilder, directory, leaf, nothing, child, ok, err, leaf_over_directory, entry_inside_leaf,
  get, add_entry, empty_dir,
}
use fuchsia_storage.Vfs.Tree.Leaves.{find_leaf, path_eq}
use fuchsia_storage.Vfs.Tree.Paths.{find_leaf-add_entry, add_entry_over_directory}
use fuchsia_storage.Vfs.Tree.Names.{IsBuildable, add_entry-IsBuildable}

abbrev etc : Name
etc = b'e' ∷ b't' ∷ b'c' ∷ []

abbrev fstab : Name
fstab = b'f' ∷ []

-- One file in a directory.
abbrev one_file : TreeBuilder
one_file = directory (child etc (directory (child fstab (leaf 1) nothing)) nothing)

-- The directory of the file is made on the way.
added : add_entry 255 empty_dir (etc ∷ fstab ∷ []) 1 ≡ (one_file, ok)
unfolding add_entry empty_dir name_eq contains_slash
added = refl

inside_leaf :
    add_entry 255 one_file (etc ∷ fstab ∷ etc ∷ []) 2
    ≡ (one_file, err (entry_inside_leaf (etc ∷ fstab ∷ etc ∷ []) (etc ∷ fstab ∷ [])))
unfolding add_entry empty_dir name_eq contains_slash
inside_leaf = refl

over_directory :
    add_entry 255 one_file (etc ∷ []) 2
    ≡ (directory (child etc (leaf 2) nothing), err (leaf_over_directory (etc ∷ [])))
unfolding add_entry empty_dir name_eq contains_slash
over_directory = refl

find_leaf-add_entry_example : find_leaf one_file (etc ∷ fstab ∷ []) ≡ (
    if path_eq (etc ∷ fstab ∷ []) (etc ∷ fstab ∷ [])
    then some 1
    else find_leaf empty_dir (etc ∷ fstab ∷ []))
find_leaf-add_entry_example =
    find_leaf-add_entry 255 empty_dir (etc ∷ fstab ∷ []) 1 one_file added (etc ∷ fstab ∷ [])

add_entry_over_directory_example :
    find_leaf (directory (child etc (leaf 2) nothing)) (etc ∷ []) ≡ some 2
add_entry_over_directory_example =
    (add_entry_over_directory 255 one_file (etc ∷ []) 2 (directory (child etc (leaf 2) nothing))
      (etc ∷ []) over_directory).0

one_file-IsBuildable : IsBuildable 255 one_file
unfolding get contains_slash
one_file-IsBuildable = ((omega arith, refl), refl, ((omega arith, refl), refl, tt, tt), tt)

add_entry-IsBuildable_example : IsBuildable 255 (add_entry 255 one_file (fstab ∷ etc ∷ []) 3).0
add_entry-IsBuildable_example =
    add_entry-IsBuildable 255 one_file (fstab ∷ etc ∷ []) 3 one_file-IsBuildable
