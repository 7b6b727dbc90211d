-- ===== src/Vfs/File/Flags.antt =====
-- Flags of file connections: src/lib/storage/vfs/rust/src/file/common.rs.
pub mod Bounds
pub mod Buffer
use fuchsia_storage.Shared.{Bool, true, false, not, ◌&&◌, ◌||◌, if◌then◌else◌}
use fuchsia_storage.Vfs.Status.{
  Result, ok, reject, not_dir, invalid_args, not_supported, access_denied,
}
use fuchsia_storage.Vfs.Flags.{
  OpenFlags, ◌∪◌, ◌∩◌, complement, intersects, posix, none_set, only_append, only_node_reference,
  only_directory, only_not_directory, only_right_readable, only_right_writable,
  only_right_executable, only_describe, only_create, only_create_if_absent, only_truncate,
  FioConstants,
}

-- A flag under a condition: `if b { flags } else { empty() }`.
abbrev when : Bool → OpenFlags → OpenFlags
when b flags = if b then flags else none_set

-- `flags` after the adjustments, before the tests that follow them.
unfoldable pub clean : FioConstants → OpenFlags → OpenFlags
clean c flags =
    let flags1 =
      if intersects flags only_node_reference
      then flags ∩ c.allowed_with_node_reference
      else flags in
    let flags2 =
      if intersects flags1 only_not_directory
      then flags1 ∩ complement only_not_directory
      else flags1 in
    flags2 ∩ complement posix

unfoldable pub allowed_flags : Bool → Bool → Bool → Bool → OpenFlags
allowed_flags readable writable executable append_allowed =
    only_node_reference
    ∪ only_describe
    ∪ only_create
    ∪ only_create_if_absent
    ∪ when readable only_right_readable
    ∪ when writable (only_right_writable ∪ only_truncate)
    ∪ when (writable && append_allowed) only_append
    ∪ when executable only_right_executable

unfoldable pub prohibited_flags : OpenFlags → Bool → Bool → OpenFlags → OpenFlags
prohibited_flags flags readable writable allowed =
    (none_set ∪ when readable only_truncate ∪ when writable only_append) ∩ complement allowed
    ∪ when (not (intersects flags only_right_writable)) only_truncate

-- The access that remains once NODE_REFERENCE has been looked at is `on && not reference`. A
-- directory is refused before the flags are cleaned of NOT_DIRECTORY, which does not touch
-- DIRECTORY.
unfoldable pub new_connection_validate_flags :
    FioConstants → OpenFlags → Bool → Bool → Bool → Bool → Result OpenFlags
new_connection_validate_flags c flags readable writable executable append_allowed =
    let reference = intersects flags only_node_reference in
    let readable' = if reference then false else readable in
    let writable' = if reference then false else writable in
    let executable' = if reference then false else executable in
    let flags1 = clean c flags in
    let allowed = allowed_flags readable' writable' executable' append_allowed in
    let prohibited = prohibited_flags flags1 readable' writable' allowed in
    reject (intersects flags1 only_directory) not_dir (
      reject (not readable' && intersects flags1 only_right_readable) access_denied (
        reject (not writable' && intersects flags1 only_right_writable) access_denied (
          reject (not executable' && intersects flags1 only_right_executable) access_denied (
            reject (intersects flags1 prohibited) invalid_args
              (reject (intersects flags1 (complement allowed)) not_supported (ok flags1))))))
