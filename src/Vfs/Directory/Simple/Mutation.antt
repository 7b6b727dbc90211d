-- ===== src/Vfs/Directory/Simple/Mutation.antt =====
-- What the mutations of a simple directory do: src/lib/storage/vfs/rust/src/directory/simple.rs.
use fuchsia_storage.Shared.{
  not, ◌||◌, Bool, true, false, [], ◌∷◌, ◌++◌, Option, none, some, length, if◌then◌else◌, ◌≡◌, ◌⊎◌,
  arith, Option-cases, inl, inr, ◌≤◌,
}
use fuchsia_storage.Vfs.Status.{Status, ok, err, invalid_args, not_found}
use fuchsia_storage.Vfs.Directory.Entries.{Name, Entry, name_eq, get, remove}
use fuchsia_storage.Vfs.Directory.Entries.Order.{name_eq→eq}
use fuchsia_storage.Vfs.Directory.Entries.Laws.{get-insert, get-remove}
use fuchsia_storage.Vfs.Directory.Simple.{
  Inner, added, removed, contains_slash, is_some, add_entry_impl, remove_entry_impl, rename_within,
  max_name_length, is_directory,
}

module _ (s : Inner) (name : Name) (entry : Entry) (overwrite : Bool) where
  -- An entry that is added is found under its name, every other name is as it was, and the watchers
  -- are told; it replaces an entry only under `overwrite`.
  pub add_entry-ok :
      (add_entry_impl s name entry overwrite).1 ≡ ok tt
      → ((j : Name)
          → get j (add_entry_impl s name entry overwrite).0.entries
            ≡ (if name_eq name j then some entry else get j s.entries))
        × ((add_entry_impl s name entry overwrite).0.events ≡ s.events ++ added name ∷ [])
        × ((overwrite || not (is_some (get name s.entries))) ≡ true)
        × (length name ≤ max_name_length)
        × (contains_slash name ≡ false)
  unfolding add_entry_impl
  add_entry-ok h = (
    λ j. ground (arith, get-insert name j entry s.entries),
    ground arith,
    ground arith,
    ground arith,
    ground arith,
  )

  -- A refused addition, for whichever reason, leaves the directory and its watchers alone.
  add_entry-err :
      (e : Status)
      → (add_entry_impl s name entry overwrite).1 ≡ err e
      → (add_entry_impl s name entry overwrite).0 ≡ s
  unfolding add_entry_impl
  add_entry-err e h = ground arith

abbrev pub only_directories : Option Entry → Bool
only_directories none = true
only_directories (some e) = is_directory e.info.dirent_type

module _ (s : Inner) (name : Name) (must_be_directory : Bool) where
  -- `remove_entry` takes out the entry that was there, of the kind that was asked for, and nothing
  -- else, and tells the watchers; where there was none it reports none and changes nothing.
  pub remove_entry-ok :
      (o : Option Entry)
      → (remove_entry_impl s name must_be_directory).1 ≡ ok o
      → (o ≡ get name s.entries)
        × ((j : Name)
            → get j (remove_entry_impl s name must_be_directory).0.entries
              ≡ (if name_eq name j then none else get j s.entries))
        × ((remove_entry_impl s name must_be_directory).0.events
            ≡ (if is_some o then s.events ++ removed name ∷ [] else s.events))
        × ((not must_be_directory || only_directories o) ≡ true)
  unfolding remove_entry_impl
  remove_entry-ok o h = (
    ground arith,
    λ j. ground (arith, get-remove name j s.entries, name_eq→eq name j),
    ground arith,
    ground arith,
  )

-- A rename within one directory moves the entry: the new name leads to what the old one led to, the
-- old name, if it is another, leads nowhere, every other name is as it was, and the watchers are
-- told of both in that order.
pub rename_within-ok :
    (s : Inner) (src dst : Name)
    → (rename_within s src dst).1 ≡ ok tt
    → (is_some (get src s.entries) ≡ true)
      × ((j : Name)
          → get j (rename_within s src dst).0.entries ≡ (
              if name_eq dst j
              then get src s.entries
              else if name_eq src j
              then none
              else get j s.entries))
      × ((rename_within s src dst).0.events ≡ (s.events ++ removed src ∷ []) ++ added dst ∷ [])
unfolding rename_within
rename_within-ok s src dst h = (ground arith, moved, ground arith)
  where
    moved :
        (j : Name)
        → get j (rename_within s src dst).0.entries ≡ (
            if name_eq dst j
            then get src s.entries
            else if name_eq src j
            then none
            else get j s.entries)
    moved j = elim (Option-cases (get src s.entries)) [
      | inl e ↦ ground arith
      | inr (x, e) ↦ ground (
        arith,
        get-insert dst j x (remove src s.entries),
        get-remove src j s.entries,
        name_eq→eq src dst,
        name_eq→eq dst j,
        name_eq→eq src j,
      )
    ]

-- A rename within one directory that fails changes nothing, and its errors are those of a name that
-- is too long and of a missing source.
pub rename_within-err :
    (s : Inner) (src dst : Name) (e : Status)
    → (rename_within s src dst).1 ≡ err e
    → ((rename_within s src dst).0 ≡ s)
      × ((e ≡ invalid_args) ⊎ ((e ≡ not_found) × (get src s.entries ≡ none)))
unfolding rename_within
rename_within-err s src dst e h = ground arith
