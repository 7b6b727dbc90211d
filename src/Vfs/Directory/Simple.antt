-- ===== src/Vfs/Directory/Simple.antt =====
-- The simple directory: src/lib/storage/vfs/rust/src/directory/simple.rs. A method is one critical
-- section of the directory's mutex: it returns the new state and its result. What the watchers are
-- sent is the list `events`, oldest first.
pub mod Mutation
pub mod Limits
pub mod Reading
pub mod Resume
use fuchsia_storage.Shared.{
  ℕ, Bool, true, false, not, ◌&&◌, ◌||◌, List, [], ◌∷◌, ◌++◌, Option, none, some, map, ◌==◌, ltb,
  leb, length, if◌then◌else◌,
}
use fuchsia_storage.Vfs.Status.{Result, ok, err, invalid_args, already_exists, not_found, not_dir}
use fuchsia_storage.Vfs.Flags.{OpenFlags, intersects, only_create_if_absent}
use fuchsia_storage.Vfs.Directory.Entries.{
  Name, DirentType, directory, Entry, Entries, name_eq, get, insert, remove,
}

-- `MAX_NAME_LENGTH` of lib.rs
abbrev pub max_name_length : ℕ
max_name_length = 255

pub data Event : Type 0 where
  added removed : Name → Event

-- `Inner`
pub record Inner : Type 0 where
  pub entries : Entries
  pub events : List Event

-- `Simple::new`
abbrev pub new : Inner
new = record { entries = []; events = [] }

abbrev pub send : Inner → Event → Inner
send s e = record s { events = s.events ++ e ∷ [] }

abbrev pub put : Inner → Name → Entry → Inner
put s name entry = record s { entries = insert name entry s.entries }

abbrev pub take_out : Inner → Name → Inner
take_out s name = record s { entries = remove name s.entries }

-- `name.contains('/')`
unfoldable pub contains_slash : Name → Bool
contains_slash [] = false
contains_slash (c ∷ name) = c == b'/' || contains_slash name

abbrev pub is_some {ℓ} : {A : Type ℓ} → Option A → Bool
is_some none = false
is_some (some a) = true

abbrev pub is_directory : DirentType → Bool
is_directory directory = true
is_directory _ = false

abbrev found : Option Entry → Result Entry
found none = err not_found
found (some entry) = ok entry

unfoldable pub get_entry : Inner → Name → Result Entry
get_entry s name =
    if ltb max_name_length (length name) then err invalid_args else found (get name s.entries)

abbrev insert_new : Inner → Name → Result Entry → Inner × Result Entry
insert_new s name (ok entry) = (put s name entry, ok entry)
insert_new s name (err e) = (s, err e)

-- `Connection::entry_not_found` is the argument `entry_not_found`.
abbrev get_or_insert_found :
    Inner → OpenFlags → Name → Result Entry → Option Entry → Inner × Result Entry
get_or_insert_found s flags name entry_not_found (some entry) =
    if intersects flags only_create_if_absent then (s, err already_exists) else (s, ok entry)
get_or_insert_found s flags name entry_not_found none = insert_new s name entry_not_found

unfoldable pub get_or_insert_entry : Inner → OpenFlags → Name → Result Entry → Inner × Result Entry
get_or_insert_entry s flags name entry_not_found =
    get_or_insert_found s flags name entry_not_found (get name s.entries)

abbrev or_insert : Inner → Name → Entry → Option Entry → Inner × Entry
or_insert s name f (some entry) = (s, entry)
or_insert s name f none = (put s name f, f)

-- `f` is what the callback returns, should it be called.
unfoldable pub get_or_insert : Inner → Name → Entry → Inner × Entry
get_or_insert s name f = or_insert s name f (get name s.entries)

unfoldable pub add_entry_impl : Inner → Name → Entry → Bool → Inner × Result (Unit {0})
add_entry_impl s name entry overwrite =
    if ltb max_name_length (length name)
    then (s, err invalid_args)
    else if contains_slash name
    then (s, err invalid_args)
    else if not overwrite && is_some (get name s.entries)
    then (s, err already_exists)
    else (put (send s (added name)) name entry, ok tt)

abbrev remove_found : Inner → Name → Bool → Option Entry → Inner × Result (Option Entry)
remove_found s name must_be_directory none = (s, ok none)
remove_found s name must_be_directory (some entry) =
    if must_be_directory && not (is_directory entry.info.dirent_type)
    then (s, err not_dir)
    else (send (take_out s name) (removed name), ok (some entry))

unfoldable pub remove_entry_impl : Inner → Name → Bool → Inner × Result (Option Entry)
remove_entry_impl s name must_be_directory =
    if leb max_name_length (length name)
    then (s, err invalid_args)
    else remove_found s name must_be_directory (get name s.entries)

-- The callback of a rename runs while this directory is locked, and may change the state `W` of the
-- other directory.
module _ {W : Type 0} where
  abbrev finish_from : Inner → Name → W × Result (Unit {0}) → Inner × W × Result (Unit {0})
  finish_from s src (w, err e) = (s, w, err e)
  finish_from s src (w, ok done) = (take_out (send s (removed src)) src, w, ok tt)

  abbrev rename_found :
      Inner
      → Name
      → (Entry → W → W × Result (Unit {0}))
      → W
      → Option Entry
      → Inner × W × Result (Unit {0})
  rename_found s src to w none = (s, w, err not_found)
  rename_found s src to w (some entry) = finish_from s src (to entry w)

  unfoldable pub rename_from :
      Inner → Name → (Entry → W → W × Result (Unit {0})) → W → Inner × W × Result (Unit {0})
  rename_from s src to w =
      if leb max_name_length (length src)
      then (s, w, err invalid_args)
      else rename_found s src to w (get src s.entries)

  abbrev finish_to : Inner → Name → W × Result Entry → Inner × W × Result (Unit {0})
  finish_to s dst (w, err e) = (s, w, err e)
  finish_to s dst (w, ok entry) = (put (send s (added dst)) dst entry, w, ok tt)

  unfoldable pub rename_to :
      Inner → Name → (W → W × Result Entry) → W → Inner × W × Result (Unit {0})
  rename_to s dst from w =
      if leb max_name_length (length dst)
      then (s, w, err invalid_args)
      else finish_to s dst (from w)

-- The second look at `src`, whose `None` arm the first one rules out.
abbrev move_within : Inner → Name → Name → Option Entry → Inner × Result (Unit {0})
move_within s src dst none = (s, err not_found)
move_within s src dst (some entry) = (put (take_out s src) dst entry, ok tt)

unfoldable pub rename_within : Inner → Name → Name → Inner × Result (Unit {0})
rename_within s src dst =
    if leb max_name_length (length src) || leb max_name_length (length dst)
    then (s, err invalid_args)
    else if not (is_some (get src s.entries))
    then (s, err not_found)
    else let s1 = send (send s (removed src)) (added dst) in
      if name_eq src dst then (s1, ok tt) else move_within s1 src dst (get src s1.entries)

-- `MutableDirectory::unlink` of directory/helper.rs
abbrev unlinked : Inner × Result (Option Entry) → Inner × Result (Unit {0})
unlinked (s, ok (some entry)) = (s, ok tt)
unlinked (s, ok none) = (s, err not_found)
unlinked (s, err e) = (s, err e)

unfoldable pub unlink : Inner → Name → Bool → Inner × Result (Unit {0})
unfolding remove_entry_impl
unlink s name must_be_directory = unlinked (remove_entry_impl s name must_be_directory)
