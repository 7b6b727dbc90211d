-- ===== src/Vfs/Service/Tests.antt =====
-- Tests of src/lib/storage/vfs/rust/src/service/common.rs.
use fuchsia_storage.Shared.{◌≡◌, refl}
use fuchsia_storage.Vfs.Status.{ok, err, reject, not_dir, access_denied}
use fuchsia_storage.Vfs.Flags.{
  OpenFlags, ◌∪◌, FioConstants, rights, node_reference_flags, only_right_readable,
  only_right_writable, only_node_reference, only_posix_deprecated,
}
use fuchsia_storage.Vfs.Service.{ServiceModes, validate_service_flags}

abbrev constants : FioConstants
constants = record {
  open_rights = rights;
  allowed_with_node_reference = node_reference_flags;
  mode_type_mask = 1044480;
  mode_type_directory = 16384;
}

abbrev modes : ServiceModes
modes = record { mode_protection_mask = 4095; mode_type_service = 65536; mode_type_file = 32768 }

abbrev request : OpenFlags
request = only_right_readable ∪ only_right_writable ∪ only_posix_deprecated

accepts :
    validate_service_flags constants modes request 65536
    ≡ ok (only_right_readable ∪ only_right_writable)
unfolding validate_service_flags reject
accepts = refl

refuses :
    (validate_service_flags constants modes request 16384 ≡ err not_dir)
    × (validate_service_flags constants modes only_right_writable 0 ≡ err access_denied)
unfolding validate_service_flags reject
refuses = (refl, refl)

references :
    validate_service_flags constants modes (request ∪ only_node_reference) 0
    ≡ ok only_node_reference
unfolding validate_service_flags reject
references = refl
