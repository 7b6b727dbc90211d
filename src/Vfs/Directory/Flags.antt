-- ===== src/Vfs/Directory/Flags.antt =====
-- Flags of directory connections: src/lib/storage/vfs/rust/src/directory/common.rs. Each assignment
-- to `flags` is a `let`; the mode is a number under the native bit operations.
pub mod Escalation
use Prim.Native.Nat.{bit_and, bit_or}
use fuchsia_storage.Shared.{ℕ, Bool, not, ◌&&◌, ◌||◌, ◌==◌, if◌then◌else◌}
use fuchsia_storage.Vfs.Status.{
  Result, ok, reject, ◌>>=◌, not_file, invalid_args, not_supported, access_denied,
}
use fuchsia_storage.Vfs.Flags.{
  OpenFlags, ◌∪◌, ◌∩◌, complement, intersects, posix, only_append, only_node_reference,
  only_clone_same_rights, only_directory, only_not_directory, only_posix_deprecated,
  only_posix_writable, only_posix_executable, only_right_readable, only_right_writable,
  only_right_executable, only_describe, only_create, only_create_if_absent, only_truncate,
  FioConstants,
}
use fuchsia_storage.Vfs.Common.{stricter_or_same_rights}

abbrev directory_allowed : OpenFlags
directory_allowed =
    only_node_reference ∪ only_describe ∪ only_create ∪ only_create_if_absent ∪ only_directory
    ∪ only_right_readable ∪ only_right_writable ∪ only_right_executable

unfoldable pub mask_node_reference : FioConstants → OpenFlags → OpenFlags
mask_node_reference c flags =
    if intersects flags only_node_reference then flags ∩ c.allowed_with_node_reference else flags

unfoldable pub drop_directory : OpenFlags → OpenFlags
drop_directory flags =
    if intersects flags only_directory then flags ∩ complement only_directory else flags

-- The POSIX flags become the rights that they stand for.
unfoldable pub expand_posix : OpenFlags → OpenFlags
expand_posix flags =
    let flags1 =
      if intersects flags only_posix_deprecated
      then flags ∪ (only_posix_writable ∪ only_posix_executable)
      else flags in
    let flags2 =
      if intersects flags1 (only_posix_deprecated ∪ only_posix_executable)
      then flags1 ∪ only_right_executable
      else flags1 in
    let flags3 =
      if intersects flags2 (only_posix_deprecated ∪ only_posix_writable)
      then flags2 ∪ only_right_writable
      else flags2 in
    flags3 ∩ complement posix

unfoldable pub new_connection_validate_flags : FioConstants → OpenFlags → Result OpenFlags
new_connection_validate_flags c flags =
    let flags1 = drop_directory (mask_node_reference c flags) in
    let flags2 = expand_posix flags1 in
    reject (intersects flags1 only_not_directory) not_file (
      reject (intersects flags2 (only_append ∪ only_truncate)) invalid_args
        (reject (intersects flags2 (complement directory_allowed)) not_supported (ok flags2)))

-- The first part of `check_child_connection_flags`: the mode, or the error of a mode that
-- contradicts the flags.
unfoldable pub check_mode : FioConstants → OpenFlags → ℕ → Result ℕ
check_mode c flags mode =
    let mode_type = bit_and mode c.mode_type_mask in
    if mode_type == 0
    then ok (if intersects flags only_directory then bit_or mode c.mode_type_directory else mode)
    else reject (intersects flags only_directory && not (mode_type == c.mode_type_directory))
        invalid_args
        (reject (intersects flags only_not_directory && mode_type == c.mode_type_directory)
          invalid_args (ok mode))

-- The POSIX flags that remain are those whose right the parent has.
unfoldable pub soften_posix : OpenFlags → OpenFlags → OpenFlags
soften_posix parent_flags flags =
    let flags1 =
      if intersects flags only_posix_deprecated
      then (flags ∪ (only_posix_writable ∪ only_posix_executable))
        ∩ complement only_posix_deprecated
      else flags in
    let flags2 =
      if not (intersects parent_flags only_right_executable)
      then flags1 ∩ complement only_posix_executable
      else flags1 in
    if not (intersects parent_flags only_right_writable)
    then flags2 ∩ complement only_posix_writable
    else flags2

-- The second part: the flags.
unfoldable pub check_flags : FioConstants → OpenFlags → OpenFlags → Result OpenFlags
check_flags c parent_flags flags =
    let flags1 = soften_posix parent_flags flags in
    reject (intersects flags only_not_directory && intersects flags only_directory) invalid_args (
      reject (intersects flags only_create_if_absent && not (intersects flags only_create))
        invalid_args
        (reject (intersects flags only_clone_same_rights) invalid_args (
          reject
            (intersects flags1 only_create && not (intersects parent_flags only_right_writable))
            access_denied
            (reject (not (stricter_or_same_rights c parent_flags flags1)) access_denied
              (ok flags1)))))

unfoldable pub check_child_connection_flags :
    FioConstants → OpenFlags → OpenFlags → ℕ → Result (OpenFlags × ℕ)
unfolding check_mode check_flags
check_child_connection_flags c parent_flags flags mode = check_mode c flags mode >>= λ mode'.
    check_flags c parent_flags flags >>= λ flags'. ok (flags', mode')
