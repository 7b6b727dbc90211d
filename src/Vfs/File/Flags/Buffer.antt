-- ===== src/Vfs/File/Flags/Buffer.antt =====
-- VMO requests on a file connection: src/lib/storage/vfs/rust/src/file/common.rs.
use fuchsia_storage.Shared.{Bool, true, false, not, ◌&&◌, ◌≡◌, ◌↔◌, arith, if◌then◌else◌}
use fuchsia_storage.Vfs.Status.{Result, ok, reject, invalid_args, access_denied}
use fuchsia_storage.Vfs.Flags.{
  OpenFlags, intersects, only_right_readable, only_right_writable, only_right_executable,
}

-- `fio::VmoFlags`, by the flags that the code names.
pub record VmoFlags : Type 0 where
  pub read : Bool
  pub write : Bool
  pub execute : Bool
  pub private_clone : Bool
  pub shared_buffer : Bool

-- `zx::Rights`, by the rights that the code names.
pub record Rights : Type 0 where
  pub read : Bool
  pub write : Bool
  pub execute : Bool
  pub basic : Bool
  pub map : Bool
  pub get_property : Bool
  pub set_property : Bool

abbrev no_rights : Rights
no_rights = record {
  read = false;
  write = false;
  execute = false;
  basic = false;
  map = false;
  get_property = false;
  set_property = false;
}

unfoldable pub vmo_flags_to_rights : VmoFlags → Rights
vmo_flags_to_rights vmo_flags =
    let rights1 = if vmo_flags.read then record no_rights { read = true } else no_rights in
    let rights2 = if vmo_flags.write then record rights1 { write = true } else rights1 in
    if vmo_flags.execute then record rights2 { execute = true } else rights2

unfoldable pub get_buffer_validate_flags : VmoFlags → OpenFlags → Result (Unit {0})
unfolding reject
get_buffer_validate_flags vmo_flags connection_flags =
    reject (vmo_flags.private_clone && vmo_flags.shared_buffer) invalid_args (
      reject (vmo_flags.read && not (intersects connection_flags only_right_readable)) access_denied
        (reject (vmo_flags.write && not (intersects connection_flags only_right_writable))
          access_denied
          (reject (vmo_flags.execute && not (intersects connection_flags only_right_executable))
            access_denied
            (reject (vmo_flags.execute && not (intersects connection_flags only_right_readable))
              access_denied (ok tt)))))

-- What a VMO with the rights `r` needs of a connection with the flags `f`.
pub record Permits (f : OpenFlags) (r : Rights) : Type 0 where
  pub readable : r.read ≡ true → f.right_readable ≡ true
  pub writable : r.write ≡ true → f.right_writable ≡ true
  pub executable : r.execute ≡ true → (f.right_executable && f.right_readable) ≡ true

-- A request for a VMO passes exactly if it does not ask for a private and a shared VMO at once and
-- the connection permits the rights that the request is turned into.
pub get_buffer_iff :
    (v : VmoFlags) (f : OpenFlags)
    → (get_buffer_validate_flags v f ≡ ok tt)
      ↔ (((v.private_clone && v.shared_buffer) ≡ false) × Permits f (vmo_flags_to_rights v))
unfolding get_buffer_validate_flags vmo_flags_to_rights
get_buffer_iff v f = ground arith
