-- ===== src/Vfs/Filesystem/Rename.antt =====
-- The results of renames: src/lib/storage/vfs/rust/src/filesystem/simple.rs.
use fuchsia_storage.Shared.{
  ℕ, true, false, [], ◌∷◌, ◌++◌, none, length, ◌≡◌, arith, ◌==◌, if◌then◌else◌, ◌<◌, Option-cases,
  Bool-cases, inl, inr,
}
use fuchsia_storage.Vfs.Status.{Status, ok, err, invalid_args}
use fuchsia_storage.Vfs.Directory.Entries.{Name, get, name_eq}
use fuchsia_storage.Vfs.Directory.Entries.Laws.{get-insert, get-remove}
use fuchsia_storage.Vfs.Directory.Simple.{
  Inner, added, removed, add_entry_impl, remove_entry_impl, rename_from, rename_to, contains_slash,
  max_name_length, is_some,
}
use fuchsia_storage.Vfs.Directory.Simple.Mutation.{rename_within-err}
use fuchsia_storage.Vfs.Filesystem.{rename_across, Store, rename}

-- Whatever the order of the locks, a rename across directories that fails leaves both as they were.
pub rename_across-err :
    (a b : ℕ) (s d : Inner) (src dst : Name) (e : Status)
    → (rename_across a s src b d dst).2 ≡ err e
    → ((rename_across a s src b d dst).0 ≡ s) × ((rename_across a s src b d dst).1 ≡ d)
unfolding rename_across rename_from rename_to add_entry_impl remove_entry_impl
rename_across-err a b s d src dst e h = ground arith

-- Whatever the order of the locks, a rename across directories that succeeds moves the entry: the
-- new name in the destination leads to it, the old name in the source leads nowhere, every other
-- name is as it was, and the watchers of either side are told.
pub rename_across-ok :
    (a b : ℕ) (s d : Inner) (src dst : Name)
    → (rename_across a s src b d dst).2 ≡ ok tt
    → ((j : Name)
        → get j (rename_across a s src b d dst).0.entries
          ≡ (if name_eq src j then none else get j s.entries))
      × ((j : Name)
          → get j (rename_across a s src b d dst).1.entries
            ≡ (if name_eq dst j then get src s.entries else get j d.entries))
      × (is_some (get src s.entries) ≡ true)
      × ((rename_across a s src b d dst).0.events ≡ s.events ++ removed src ∷ [])
      × ((rename_across a s src b d dst).1.events ≡ d.events ++ added dst ∷ [])
unfolding rename_across rename_from rename_to add_entry_impl remove_entry_impl
rename_across-ok a b s d src dst h = elim (Option-cases (get src s.entries)) [
  | inl e ↦ ground arith
  | inr (x, e) ↦ (
    λ j. ground (arith, get-remove src j s.entries),
    λ j. ground (arith, get-insert dst j x d.entries),
    ground arith,
    ground arith,
    ground arith,
  )
]

-- Where both names are short and the new one holds no slash, the result does not depend on which
-- directory is locked first.
pub rename_across_order :
    (a b : ℕ) (s d : Inner) (src dst : Name)
    → a < b
    → length src < max_name_length
    → length dst < max_name_length
    → contains_slash dst ≡ false
    → rename_across a s src b d dst ≡ rename_across b s src a d dst
unfolding rename_across rename_from rename_to add_entry_impl remove_entry_impl
rename_across_order a b s d src dst below h k slash = ground arith

-- A rename to any name of exactly the greatest length succeeds or fails by the memory addresses.
pub rename_across_longest :
    (a b : ℕ) (s d : Inner) (src dst : Name)
    → a < b
    → length src < max_name_length
    → length dst ≡ max_name_length
    → contains_slash dst ≡ false
    → is_some (get src s.entries) ≡ true
    → ((rename_across a s src b d dst).2 ≡ ok tt)
      × ((rename_across b s src a d dst).2 ≡ err invalid_args)
unfolding rename_across rename_from rename_to add_entry_impl remove_entry_impl
rename_across_longest a b s d src dst below h k slash there = ground arith

-- A rename that fails, in one directory or across two, leaves every directory of the store as it
-- was.
pub rename-err :
    (m : Store) (a b : ℕ) (src dst : Name) (e : Status)
    → (rename m a src b dst).1 ≡ err e
    → (x : ℕ) → (rename m a src b dst).0 x ≡ m x
unfolding rename
rename-err m a b src dst e h x = elim (Bool-cases (a == b)) [
  | inl one ↦ ground (arith, rename_within-err (m a) src dst e)
  | inr two ↦ ground (arith, rename_across-err a b (m a) (m b) src dst e)
]
