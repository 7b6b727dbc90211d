-- ===== src/Vfs/Mutable/Tests.antt =====
-- Tests of src/lib/storage/vfs/rust/src/directory/mutable/connection/io1.rs.
use fuchsia_storage.Shared.{
  ℕ, ◌%◌, Bool, true, false, ◌&&◌, [], ◌∷◌, Option, none, some, ◌≡◌, refl, lookup,
}
use fuchsia_storage.Vfs.Status.{ok, err, reject, bad_handle, invalid_args, not_supported, not_found}
use fuchsia_storage.Vfs.Flags.{only_right_readable, only_right_writable}
use fuchsia_storage.Vfs.Directory.Entries.{Name, Entry, file, get, insert, remove}
use fuchsia_storage.Vfs.Directory.Simple.{Inner, contains_slash, rename_within}
use fuchsia_storage.Vfs.PathString.{
  PathLimits, PathString, validate_and_split, is_single_component, into_string,
}
use fuchsia_storage.Vfs.Registry.Token
use fuchsia_storage.Vfs.Filesystem.{Store, rename}
use fuchsia_storage.Vfs.Mutable.{handle_unlink, handle_rename, handle_get_token}
use fuchsia_storage.Vfs.Mutable.Requests.{handle_rename-ok}

abbrev limits : PathLimits
limits = record { max_path = 4095; path_max = 4096; max_filename = 255 }

-- The token 3 is that of the directory at the address 10.
abbrev kernel : Token.Kernel
kernel = record { create = ok 5; get_koid = λ h. ok (h % 100); duplicate_handle = λ h. ok h }

abbrev registry : Option Token.Inner
registry = some (record { container_to_token = (10, 3) ∷ []; token_to_container = (3, 10) ∷ [] })

abbrev alive : ℕ → Bool
alive container = true

abbrev name_a : Name
name_a = b'a' ∷ []

abbrev name_b : Name
name_b = b'b' ∷ []

-- "b/"
abbrev b_slash : Name
b_slash = b'b' ∷ b'/' ∷ []

abbrev a_file : Entry
a_file = record { object = 1; info = record { inode = 0; dirent_type = file } }

abbrev one_file : Inner
one_file = record { entries = (name_a, a_file) ∷ []; events = [] }

abbrev store : Store
store a = one_file

abbrev path_a : PathString
path_a = record { is_dir = false; inner = name_a; next_index = 0 }

abbrev path_b : PathString
path_b = record { is_dir = false; inner = name_b; next_index = 0 }

-- A destination with a trailing slash passes for a single component and becomes the entry's name.
renames_to_slash :
    (((handle_rename limits kernel alive registry only_right_writable store 10 name_a 3 b_slash).0
        10).entries
      ≡ (b_slash, a_file) ∷ [])
    × (contains_slash b_slash ≡ true)
unfolding handle_rename reject Token.get_container lookup rename_within get insert remove
    contains_slash
renames_to_slash = (refl, refl)

renames :
    (handle_rename limits kernel alive registry only_right_writable store 10 name_a 3 name_b).1
    ≡ ok tt
unfolding handle_rename reject Token.get_container lookup rename_within get
renames = refl

renames_nothing :
    (handle_rename limits kernel alive registry only_right_writable store 10 name_b 3 name_a).1
    ≡ err not_found
unfolding handle_rename reject Token.get_container lookup rename_within get
renames_nothing = refl

not_writable :
    (handle_rename limits kernel alive registry only_right_readable store 10 name_a 3 name_b).1
    ≡ err bad_handle
unfolding handle_rename reject
not_writable = refl

no_registry :
    (handle_rename limits kernel alive none only_right_writable store 10 name_a 3 name_b).1
    ≡ err not_supported
unfolding handle_rename reject
no_registry = refl

unlinks : (handle_unlink only_right_writable one_file name_a false).1 ≡ ok tt
unfolding handle_unlink get
unlinks = refl

unlinks_parent :
    (handle_unlink only_right_writable one_file (b'.' ∷ b'.' ∷ []) false).1 ≡ err invalid_args
unfolding handle_unlink
unlinks_parent = refl

gets_token : (handle_get_token kernel registry only_right_writable 10).1 ≡ ok 3
unfolding handle_get_token Token.get_token lookup
gets_token = refl

handle_rename-ok_example :
    (only_right_writable.right_writable ≡ true)
    × (src : PathString) × (dst : PathString) × (inner : Token.Inner) × (parent : ℕ)
    × (validate_and_split limits name_a ≡ ok src)
    × (validate_and_split limits name_b ≡ ok dst)
    × ((is_single_component src && is_single_component dst) ≡ true)
    × (registry ≡ some inner)
    × (Token.get_container kernel alive inner 3 ≡ ok (some parent))
    × (handle_rename limits kernel alive registry only_right_writable store 10 name_a 3 name_b
        ≡ rename store 10 (into_string src) parent (into_string dst))
handle_rename-ok_example =
    handle_rename-ok limits kernel alive registry only_right_writable store 10 name_a 3 name_b
      renames
