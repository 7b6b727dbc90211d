-- ===== src/Vfs/Service.antt =====
-- Flags of connections to services: src/lib/storage/vfs/rust/src/service/common.rs. A mode is a
-- 32-bit number; the debug assertion that repeats what the tests before it ensure is not modelled.
pub mod Accepted
mod Tests
use Prim.Native.Nat.{bit_and}
use fuchsia_storage.Shared.{ℕ, ◌-◌, ◌^◌, Bool, true, false, not, ◌&&◌, ◌||◌, ◌==◌, if◌then◌else◌}
use fuchsia_storage.Vfs.Status.{
  Status, Result, ok, err, reject, not_dir, not_file, invalid_args, access_denied,
}
use fuchsia_storage.Vfs.Flags.{
  OpenFlags, ◌∪◌, ◌∩◌, complement, intersects, posix, only_node_reference, only_directory,
  only_not_directory, only_right_readable, only_right_writable, only_describe, FioConstants,
}

-- Further generated constants of fuchsia.io.
pub record ServiceModes : Type 0 where
  pub mode_protection_mask : ℕ
  pub mode_type_service : ℕ
  pub mode_type_file : ℕ

-- `!mask` on 32 bits
abbrev not_mask : ℕ → ℕ
not_mask mask = 2 ^ 32 - 1 - mask

abbrev wrong_mode : FioConstants → ServiceModes → ℕ → Status
wrong_mode c modes mode =
    let mode_type = bit_and mode c.mode_type_mask in
    if mode_type == c.mode_type_directory
    then not_dir
    else if mode_type == modes.mode_type_file
    then not_file
    else invalid_args

-- What is left of the flags for a connection to the service node itself.
unfoldable pub reference_flags : FioConstants → OpenFlags → Result OpenFlags
reference_flags c flags =
    let flags1 = flags ∩ complement (only_right_readable ∪ only_right_writable) in
    reject (intersects flags1 (complement c.allowed_with_node_reference)) invalid_args
      (ok (flags1 ∩ (only_node_reference ∪ only_describe)))

unfoldable pub forwarded_flags : OpenFlags → Result OpenFlags
forwarded_flags flags = reject (not (intersects flags only_right_readable)) access_denied (
    reject (intersects flags only_describe) invalid_args (
      reject (intersects flags (complement (only_right_readable ∪ only_right_writable)))
        invalid_args (ok flags)))

unfoldable pub ignored_flags : OpenFlags → OpenFlags
ignored_flags flags = flags ∩ complement only_not_directory ∩ complement posix

unfoldable pub validate_service_flags :
    FioConstants → ServiceModes → OpenFlags → ℕ → Result OpenFlags
unfolding reference_flags forwarded_flags ignored_flags
validate_service_flags c modes flags mode =
    let flags1 = ignored_flags flags in
    reject
      (not (
        bit_and (bit_and mode (not_mask modes.mode_protection_mask))
          (not_mask modes.mode_type_service)
        == 0))
      (wrong_mode c modes mode)
      (reject (intersects flags1 only_directory) not_dir (
        if intersects flags1 only_node_reference
        then reference_flags c flags1
        else forwarded_flags flags1))
