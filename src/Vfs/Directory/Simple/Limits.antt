-- ===== src/Vfs/Directory/Simple/Limits.antt =====
-- Names at the limit: src/lib/storage/vfs/rust/src/directory/simple.rs.
use fuchsia_storage.Shared.{Bool, true, false, length, ◌≡◌, arith}
use fuchsia_storage.Vfs.Status.{ok, err, invalid_args}
use fuchsia_storage.Vfs.Directory.Entries.{Name, Entry}
use fuchsia_storage.Vfs.Directory.Simple.{
  Inner, add_entry_impl, remove_entry_impl, rename_within, unlink, contains_slash, max_name_length,
}

-- An entry under any name of exactly the greatest length can be added, and can then be neither
-- removed nor unlinked nor renamed to any name.
pub longest_name_stays :
    (s : Inner) (name dst : Name) (entry : Entry) (must_be_directory : Bool)
    → length name ≡ max_name_length
    → contains_slash name ≡ false
    → ((add_entry_impl s name entry true).1 ≡ ok tt)
      × ((remove_entry_impl (add_entry_impl s name entry true).0 name must_be_directory).1
          ≡ err invalid_args)
      × ((unlink (add_entry_impl s name entry true).0 name must_be_directory).1 ≡ err invalid_args)
      × ((rename_within (add_entry_impl s name entry true).0 name dst).1 ≡ err invalid_args)
unfolding add_entry_impl remove_entry_impl rename_within unlink
longest_name_stays s name dst entry must_be_directory h k =
    (ground arith, ground arith, ground arith, ground arith)
