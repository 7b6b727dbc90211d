-- ===== src/Vfs/Mutable.antt =====
-- Requests to a mutable directory connection:
-- src/lib/storage/vfs/rust/src/directory/mutable/connection/io1.rs. The directory of the connection
-- is the address `dir` in a store of directories, and so is a container of the token registry;
-- every directory is one of `directory/simple.rs`, so that the downcasts of a rename succeed.
mod Tests
pub mod Requests
use fuchsia_storage.Shared.{
  ℕ, Bool, true, false, not, ◌&&◌, ◌||◌, List, [], ◌∷◌, Option, none, some, if◌then◌else◌,
}
use fuchsia_storage.Vfs.Status.{
  Result, ok, err, bad_handle, invalid_args, not_supported, not_found, ◌>>=◌, reject,
}
use fuchsia_storage.Vfs.Flags.{OpenFlags, intersects, only_right_writable}
use fuchsia_storage.Vfs.Directory.Entries.{Name, name_eq}
use fuchsia_storage.Vfs.Directory.Simple.{Inner, contains_slash, unlink}
use fuchsia_storage.Vfs.PathString.{
  PathLimits, PathString, validate_and_split, is_single_component, into_string, is_empty_string,
}
use fuchsia_storage.Vfs.Registry.Token
use fuchsia_storage.Vfs.Filesystem.{Store, write, rename}

unfoldable pub handle_unlink : OpenFlags → Inner → Name → Bool → Inner × Result (Unit {0})
unfolding unlink name_eq contains_slash
handle_unlink flags s name must_be_directory =
    if not (intersects flags only_right_writable)
    then (s, err bad_handle)
    else if is_empty_string name
        || contains_slash name
        || name_eq name (b'.' ∷ [])
        || name_eq name (b'.' ∷ b'.' ∷ [])
    then (s, err invalid_args)
    else unlink s name must_be_directory

-- The checks of `handle_rename` before the tokens: the two paths.
unfoldable pub rename_paths :
    PathLimits → OpenFlags → Name → Name → Result (PathString × PathString)
unfolding validate_and_split is_single_component
rename_paths limits flags src dst = reject (not (intersects flags only_right_writable)) bad_handle (
    validate_and_split limits src >>= λ src'. validate_and_split limits dst >>= λ dst'.
    reject (not (is_single_component src') || not (is_single_component dst')) invalid_args
      (ok (src', dst')))

abbrev some_container : Option ℕ → Result ℕ
some_container none = err not_found
some_container (some container) = ok container

-- The destination: the container of the token.
unfoldable pub rename_parent : Token.Kernel → (ℕ → Bool) → Option Token.Inner → ℕ → Result ℕ
unfolding Token.get_container
rename_parent k alive none token = err not_supported
rename_parent k alive (some registry) token =
    Token.get_container k alive registry token >>= some_container

abbrev rename_checked :
    Store → ℕ → Result ((PathString × PathString) × ℕ) → Store × Result (Unit {0})
rename_checked m dir (err e) = (m, err e)
rename_checked m dir (ok ((src, dst), parent)) =
    rename m dir (into_string src) parent (into_string dst)

unfoldable pub handle_rename :
    PathLimits
    → Token.Kernel
    → (ℕ → Bool)
    → Option Token.Inner
    → OpenFlags
    → Store
    → ℕ
    → Name
    → ℕ
    → Name
    → Store × Result (Unit {0})
unfolding rename_paths rename_parent rename
handle_rename limits k alive registry flags m dir src token dst = rename_checked m dir (
    rename_paths limits flags src dst >>= λ paths.
    rename_parent k alive registry token >>= λ parent. ok (paths, parent))

abbrev got_token : Token.Inner × Result ℕ → Option Token.Inner × Result ℕ
got_token (registry, r) = (some registry, r)

unfoldable pub handle_get_token :
    Token.Kernel → Option Token.Inner → OpenFlags → ℕ → Option Token.Inner × Result ℕ
unfolding Token.get_token
handle_get_token k registry flags dir =
    if not (intersects flags only_right_writable)
    then (registry, err bad_handle)
    else elim registry [
      | none ↦ (none, err not_supported)
      | some inner ↦ got_token (Token.get_token k inner dir)
    ]
