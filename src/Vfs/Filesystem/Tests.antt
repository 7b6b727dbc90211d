-- ===== src/Vfs/Filesystem/Tests.antt =====
-- Tests of renames, src/lib/storage/vfs/rust/src/filesystem/simple.rs.
use fuchsia_storage.Shared.{
  true, false, [], ◌∷◌, ◌++◌, none, if◌then◌else◌, ◌≡◌, ◌==◌, refl, replicate, arith,
}
use fuchsia_storage.Vfs.Status.{ok, err, invalid_args, not_found}
use fuchsia_storage.Vfs.Directory.Entries.{
  Name, file, directory, Entry, name_eq, get, insert, remove,
}
use fuchsia_storage.Vfs.Directory.Simple.{
  Inner, added, removed, contains_slash, is_some, add_entry_impl, remove_entry_impl, rename_from,
  rename_to,
}
use fuchsia_storage.Vfs.Filesystem.{rename_across, Store, rename}
use fuchsia_storage.Vfs.Filesystem.Rename.{rename_across-ok, rename_across_longest}

abbrev old_name : Name
old_name = b'a' ∷ []

abbrev new_name : Name
new_name = b'b' ∷ []

-- A name of the greatest length.
abbrev longest : Name
longest = replicate 255 b'x'

abbrev moved : Entry
moved = record { object = 1; info = record { inode = 0; dirent_type = file } }

abbrev replaced : Entry
replaced = record { object = 2; info = record { inode = 0; dirent_type = directory } }

abbrev source : Inner
source = record { entries = (old_name, moved) ∷ []; events = [] }

abbrev destination : Inner
destination = record { entries = (new_name, replaced) ∷ []; events = [] }

-- The source is at the address 10, the destination at 20.
abbrev store : Store
store a = if a == 10 then source else destination

moves : rename_across 10 source old_name 20 destination new_name ≡ (
  record { entries = []; events = removed old_name ∷ [] },
  record { entries = (new_name, moved) ∷ []; events = added new_name ∷ [] },
  ok tt,
)
unfolding rename_across rename_from add_entry_impl contains_slash get insert remove
moves = refl

moves_back :
    rename_across 20 source old_name 10 destination new_name
    ≡ rename_across 10 source old_name 20 destination new_name
unfolding rename_across rename_from rename_to add_entry_impl remove_entry_impl contains_slash get
    insert remove
moves_back = refl

moves_ok : (rename_across 10 source old_name 20 destination new_name).2 ≡ ok tt
unfolding rename_across rename_from add_entry_impl contains_slash get
moves_ok = refl

moves_nothing : (rename_across 10 source new_name 20 destination old_name).2 ≡ err not_found
unfolding rename_across rename_from get
moves_nothing = refl

store_nothing : (rename store 10 new_name 20 old_name).1 ≡ err not_found
unfolding rename rename_across rename_from get
store_nothing = refl

no_slash : (contains_slash new_name ≡ false) × (contains_slash longest ≡ false)
unfolding contains_slash
no_slash = (refl, refl)

there : is_some (get old_name source.entries) ≡ true
unfolding get
there = refl

rename_across-ok_example :
    ((j : Name)
      → get j (rename_across 10 source old_name 20 destination new_name).0.entries
        ≡ (if name_eq old_name j then none else get j source.entries))
    × ((j : Name)
        → get j (rename_across 10 source old_name 20 destination new_name).1.entries
          ≡ (if name_eq new_name j then get old_name source.entries else get j destination.entries))
    × (is_some (get old_name source.entries) ≡ true)
    × ((rename_across 10 source old_name 20 destination new_name).0.events
        ≡ [] ++ removed old_name ∷ [])
    × ((rename_across 10 source old_name 20 destination new_name).1.events
        ≡ [] ++ added new_name ∷ [])
rename_across-ok_example = rename_across-ok 10 20 source destination old_name new_name moves_ok

rename_across_longest_example :
    ((rename_across 10 source old_name 20 destination longest).2 ≡ ok tt)
    × ((rename_across 20 source old_name 10 destination longest).2 ≡ err invalid_args)
rename_across_longest_example =
    rename_across_longest 10 20 source destination old_name longest (omega arith) (omega arith) refl
      no_slash.1 there
