-- ===== src/Vfs/Tests.antt =====
-- Tests of the flags of connections, of src/lib/storage/vfs/rust/src/common.rs, directory/common.rs
-- and file/common.rs.
use fuchsia_storage.Shared.{true, false, ◌≡◌, refl}
use fuchsia_storage.Vfs.Status.{ok, err, reject, access_denied, invalid_args, not_file}
use fuchsia_storage.Vfs.Flags.{
  OpenFlags, ◌∪◌, FioConstants, RightsLaw, rights, node_reference_flags, only_right_readable,
  only_right_writable, only_posix_deprecated, only_create, only_truncate, only_clone_same_rights,
  only_not_directory,
}
use fuchsia_storage.Vfs.Common.{stricter_or_same_rights, inherit_rights_for_clone, WithinRights}
use fuchsia_storage.Vfs.Common.Clone.{IsClone, inherit_rights_for_clone-IsClone}
use fuchsia_storage.Vfs.Directory.Flags as DirectoryFlags
use fuchsia_storage.Vfs.Directory.Flags.Escalation.{open_child_within}
use fuchsia_storage.Vfs.File.Flags as FileFlags
use fuchsia_storage.Vfs.File.Flags.Bounds.{IsAccepted, new_connection_validate_flags-IsAccepted}
use fuchsia_storage.Vfs.File.Flags.Buffer.{VmoFlags}

abbrev constants : FioConstants
constants = record {
  open_rights = rights;
  allowed_with_node_reference = node_reference_flags;
  mode_type_mask = 1044480;
  mode_type_directory = 16384;
}

constants-RightsLaw : RightsLaw constants
constants-RightsLaw = refl

abbrev read_write : OpenFlags
read_write = only_right_readable ∪ only_right_writable

abbrev clone : OpenFlags
clone = only_clone_same_rights

abbrev read_write_create : OpenFlags
read_write_create = read_write ∪ only_create

abbrev read_posix : OpenFlags
read_posix = only_right_readable ∪ only_posix_deprecated

-- A parent that is readable and writable turns POSIX_DEPRECATED into the writable one.
abbrev read_posix_writable : OpenFlags
read_posix_writable = record only_right_readable { posix_writable = true }

cloned : inherit_rights_for_clone constants read_write clone ≡ ok read_write
unfolding inherit_rights_for_clone
cloned = refl

clone_and_rights :
    inherit_rights_for_clone constants read_write (clone ∪ only_right_readable) ≡ err invalid_args
unfolding inherit_rights_for_clone
clone_and_rights = refl

clone_more : inherit_rights_for_clone constants only_right_readable read_write ≡ err access_denied
unfolding inherit_rights_for_clone
clone_more = refl

softened :
    DirectoryFlags.check_child_connection_flags constants read_write read_posix 0
    ≡ ok (read_posix_writable, 0)
unfolding DirectoryFlags.check_child_connection_flags DirectoryFlags.soften_posix reject
    stricter_or_same_rights
softened = refl

opened : DirectoryFlags.new_connection_validate_flags constants read_posix_writable ≡ ok read_write
unfolding DirectoryFlags.new_connection_validate_flags DirectoryFlags.mask_node_reference
    DirectoryFlags.drop_directory DirectoryFlags.expand_posix reject
opened = refl

not_a_file :
    DirectoryFlags.new_connection_validate_flags constants only_not_directory ≡ err not_file
unfolding DirectoryFlags.new_connection_validate_flags DirectoryFlags.mask_node_reference
    DirectoryFlags.drop_directory DirectoryFlags.expand_posix reject
not_a_file = refl

creates :
    DirectoryFlags.check_child_connection_flags constants read_write read_write_create 0
    ≡ ok (read_write_create, 0)
unfolding DirectoryFlags.check_child_connection_flags DirectoryFlags.soften_posix reject
    stricter_or_same_rights
creates = refl

accepted :
    FileFlags.new_connection_validate_flags constants read_posix true true false true
    ≡ ok only_right_readable
unfolding FileFlags.new_connection_validate_flags FileFlags.clean FileFlags.allowed_flags
    FileFlags.prohibited_flags reject
accepted = refl

truncate_unwritten :
    FileFlags.new_connection_validate_flags constants
      (only_right_readable ∪ only_truncate)
      true
      true
      false
      true
    ≡ err invalid_args
unfolding FileFlags.new_connection_validate_flags FileFlags.clean FileFlags.allowed_flags
    FileFlags.prohibited_flags reject
truncate_unwritten = refl

abbrev read_execute : VmoFlags
read_execute = record {
  read = true;
  write = false;
  execute = true;
  private_clone = false;
  shared_buffer = false;
}

inherit_rights_for_clone-IsClone_example : IsClone read_write clone read_write
inherit_rights_for_clone-IsClone_example =
    inherit_rights_for_clone-IsClone constants read_write clone read_write constants-RightsLaw
      cloned

open_child_within_example : WithinRights read_write read_write
open_child_within_example =
    open_child_within constants read_write read_posix read_posix_writable read_write 0 0
      constants-RightsLaw softened opened

new_connection_validate_flags-IsAccepted_example :
    IsAccepted read_posix only_right_readable true true false true
new_connection_validate_flags-IsAccepted_example =
    new_connection_validate_flags-IsAccepted constants read_posix only_right_readable true true
      false true accepted
