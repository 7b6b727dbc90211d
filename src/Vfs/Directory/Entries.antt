-- ===== src/Vfs/Directory/Entries.antt =====
-- The `BTreeMap<String, Arc<dyn DirectoryEntry>>` of
-- src/lib/storage/vfs/rust/src/directory/simple.rs: an association list that its operations keep in
-- the order of the names. A name is the list of its bytes. An entry is a number for the object
-- behind the `Arc`, with what `entry_info` says of it.
pub mod Order
pub mod Laws
use Prim.Native.Nat.{compare, Ordering}
use fuchsia_storage.Shared.{ℕ, Bool, true, false, List, [], ◌∷◌, Option, none, some, if◌then◌else◌}

abbrev pub Name : Type 0
Name = List ℕ

-- `fio::DirentType`
pub data DirentType : Type 0 where
  unknown directory file service block_device symlink : DirentType

-- `EntryInfo` of directory/entry.rs
pub record EntryInfo : Type 0 where
  pub inode : ℕ
  pub dirent_type : DirentType

pub record Entry : Type 0 where
  pub object : ℕ
  pub info : EntryInfo

abbrev pub Entries : Type 0
Entries = List (Name × Entry)

-- The order of `String`: byte by byte.
unfoldable pub compare_names : Name → Name → Ordering
compare_names [] [] = Ordering.eq
compare_names [] (y ∷ ys) = Ordering.lt
compare_names (x ∷ xs) [] = Ordering.gt
compare_names (x ∷ xs) (y ∷ ys) = elim (compare x y) [
  | Ordering.lt ↦ Ordering.lt
  | Ordering.eq ↦ compare_names xs ys
  | Ordering.gt ↦ Ordering.gt
]

unfoldable pub name_eq : Name → Name → Bool
unfolding compare_names
name_eq a b = elim (compare_names a b) [ Ordering.eq ↦ true | _ ↦ false ]

unfoldable pub name_lt : Name → Name → Bool
unfolding compare_names
name_lt a b = elim (compare_names a b) [ Ordering.lt ↦ true | _ ↦ false ]

unfoldable pub get : Name → Entries → Option Entry
unfolding name_eq
get k [] = none
get k ((j, e) ∷ m) = if name_eq j k then some e else get k m

unfoldable pub insert : Name → Entry → Entries → Entries
unfolding name_eq name_lt
insert k e [] = (k, e) ∷ []
insert k e ((j, d) ∷ m) =
    if name_eq j k
    then (k, e) ∷ m
    else if name_lt k j
    then (k, e) ∷ (j, d) ∷ m
    else (j, d) ∷ insert k e m

unfoldable pub remove : Name → Entries → Entries
unfolding name_eq
remove k [] = []
remove k ((j, e) ∷ m) = let rest = remove k m in if name_eq j k then rest else (j, e) ∷ rest

-- `range(k..)`
unfoldable pub range_from : Name → Entries → Entries
unfolding name_lt
range_from k [] = []
range_from k ((j, e) ∷ m) = if name_lt j k then range_from k m else (j, e) ∷ m
