-- ===== src/Vfs/Filesystem.antt =====
-- Renames across directories: src/lib/storage/vfs/rust/src/filesystem/simple.rs. The two paths are
-- the names that `into_string` gives; a directory's memory address, which orders the locks, is a
-- number.
pub mod Rename
mod Tests
use fuchsia_storage.Shared.{ℕ, true, false, Option, none, some, if◌then◌else◌, ltb, ◌==◌}
use fuchsia_storage.Vfs.Status.{Result, ok, err, not_found}
use fuchsia_storage.Vfs.Directory.Entries.{Name, Entry}
use fuchsia_storage.Vfs.Directory.Simple.{
  Inner, add_entry_impl, remove_entry_impl, rename_from, rename_to, rename_within,
}

-- The callback of `rename_to`: a source that is not there is an error.
abbrev pub or_not_found : Inner × Result (Option Entry) → Inner × Result Entry
or_not_found (s, ok (some entry)) = (s, ok entry)
or_not_found (s, ok none) = (s, err not_found)
or_not_found (s, err e) = (s, err e)

-- `rename_to` returns the locked directory, the destination, first.
abbrev pub swapped : Inner × Inner × Result (Unit {0}) → Inner × Inner × Result (Unit {0})
swapped (d, s, r) = (s, d, r)

-- A rename between two directories, the source's state first: the one at the lower address is
-- locked first.
unfoldable pub rename_across :
    ℕ → Inner → Name → ℕ → Inner → Name → Inner × Inner × Result (Unit {0})
rename_across src_order s src dst_order d dst =
    if ltb src_order dst_order
    then rename_from s src (λ entry w. add_entry_impl w dst entry true) d
    else swapped (rename_to d dst (λ w. or_not_found (remove_entry_impl w src false)) s)

-- `FilesystemRename::rename` on a store of directories by address. Two addresses that are equal are
-- one directory.
abbrev pub Store : Type 0
Store = ℕ → Inner

abbrev pub write : Store → ℕ → Inner → Store
write m a s b = if a == b then s else m b

abbrev store_one : Store → ℕ → Inner × Result (Unit {0}) → Store × Result (Unit {0})
store_one m a (s, r) = (write m a s, r)

abbrev store_two : Store → ℕ → ℕ → Inner × Inner × Result (Unit {0}) → Store × Result (Unit {0})
store_two m a b (s, d, r) = (write (write m a s) b d, r)

unfoldable pub rename : Store → ℕ → Name → ℕ → Name → Store × Result (Unit {0})
rename m src_parent src dst_parent dst =
    if src_parent == dst_parent
    then store_one m src_parent (rename_within (m src_parent) src dst)
    else store_two m src_parent dst_parent
        (rename_across src_parent (m src_parent) src dst_parent (m dst_parent) dst)
