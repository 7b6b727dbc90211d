-- ===== src/Vfs/Directory/Tests.antt =====
-- Tests of the simple directory, src/lib/storage/vfs/rust/src/directory/simple.rs.
use fuchsia_storage.Shared.{
  ℕ, zero, suc, true, false, List, [], ◌∷◌, ◌++◌, some, ◌≡◌, refl, replicate,
}
use fuchsia_storage.Vfs.Status.{ok, err, invalid_args, already_exists, not_found, not_dir}
use fuchsia_storage.Vfs.Directory.Entries.{
  Name, directory, file, Entry, name_lt, get, insert, remove, range_from,
}
use fuchsia_storage.Vfs.Directory.Entries.Laws.{IsSorted}
use fuchsia_storage.Vfs.Directory.Simple.{
  Inner, added, removed, contains_slash, add_entry_impl, remove_entry_impl, rename_within, unlink,
}
use fuchsia_storage.Vfs.Directory.Simple.Limits.{longest_name_stays}
use fuchsia_storage.Vfs.Directory.Simple.Reading.{
  start, at_name, end, ok_sink, sealed, SinkOps, dot, read_dirents,
}
use fuchsia_storage.Vfs.Directory.Simple.Resume.{pending, LosesNothing, read_resumes}

abbrev name_a : Name
name_a = b'a' ∷ []

abbrev name_b : Name
name_b = b'b' ∷ []

abbrev name_c : Name
name_c = b'c' ∷ []

-- A name of the greatest length.
abbrev longest : Name
longest = replicate 255 b'x'

abbrev a_file : Entry
a_file = record { object = 1; info = record { inode = 0; dirent_type = file } }

abbrev a_directory : Entry
a_directory = record { object = 2; info = record { inode = 0; dirent_type = directory } }

abbrev two_entries : Inner
two_entries = record { entries = (name_a, a_file) ∷ (name_c, a_directory) ∷ []; events = [] }

abbrev three_entries : Inner
three_entries = record {
  entries = (name_a, a_file) ∷ (name_b, a_file) ∷ (name_c, a_directory) ∷ [];
  events = added name_b ∷ [];
}

adds : add_entry_impl two_entries name_b a_file false ≡ (three_entries, ok tt)
unfolding add_entry_impl get insert contains_slash
adds = refl

adds_twice : add_entry_impl two_entries name_a a_file false ≡ (two_entries, err already_exists)
unfolding add_entry_impl get contains_slash
adds_twice = refl

removes_directory : (remove_entry_impl two_entries name_c true).1 ≡ ok (some a_directory)
unfolding remove_entry_impl get
removes_directory = refl

removes_file : remove_entry_impl two_entries name_a true ≡ (two_entries, err not_dir)
unfolding remove_entry_impl get
removes_file = refl

unlinks_nothing : unlink two_entries name_b false ≡ (two_entries, err not_found)
unfolding unlink get
unlinks_nothing = refl

renames : rename_within two_entries name_a name_b ≡ (
  record {
    entries = (name_b, a_file) ∷ (name_c, a_directory) ∷ [];
    events = removed name_a ∷ added name_b ∷ [];
  },
  ok tt,
)
unfolding rename_within get remove insert
renames = refl

renames_nothing : (rename_within two_entries name_b name_a).1 ≡ err not_found
unfolding rename_within get
renames_nothing = refl

renames_ok : (rename_within two_entries name_a name_b).1 ≡ ok tt
unfolding rename_within get
renames_ok = refl

longest_name : contains_slash longest ≡ false
unfolding contains_slash
longest_name = refl

longest_name_stays_example :
    ((add_entry_impl two_entries longest a_file true).1 ≡ ok tt)
    × ((remove_entry_impl (add_entry_impl two_entries longest a_file true).0 longest false).1
        ≡ err invalid_args)
    × ((unlink (add_entry_impl two_entries longest a_file true).0 longest false).1
        ≡ err invalid_args)
    × ((rename_within (add_entry_impl two_entries longest a_file true).0 longest name_b).1
        ≡ err invalid_args)
longest_name_stays_example =
    longest_name_stays two_entries longest name_b a_file false refl longest_name

-- A sink that has room for a number of names.
abbrev small_sink : SinkOps (ℕ × List Name) (List Name)
small_sink = record {
  append = λ sink info name. elim sink.0 [
    | zero ↦ sealed sink.1
    | suc n ↦ ok_sink (n, sink.1 ++ name ∷ [])
  ];
  seal = λ sink. sink.1;
}

sorted : IsSorted three_entries.entries
unfolding name_lt
sorted = ((refl, (refl, tt)), ((refl, tt), (tt, tt)))

reads_first :
    read_dirents small_sink three_entries 9 start (2, []) ≡ some (at_name name_b, dot ∷ name_a ∷ [])
unfolding read_dirents
reads_first = refl

reads_next :
    read_dirents small_sink three_entries 9 (at_name name_b) (1, [])
    ≡ some (at_name name_c, name_b ∷ [])
unfolding read_dirents range_from
reads_next = refl

reads_last :
    read_dirents small_sink three_entries 9 (at_name name_c) (5, []) ≡ some (end, name_c ∷ [])
unfolding read_dirents range_from
reads_last = refl

read_resumes_example :
    LosesNothing small_sink three_entries sorted
      (pending three_entries (at_name name_b))
      (1, [])
      (at_name name_c, name_b ∷ [])
read_resumes_example =
    read_resumes small_sink three_entries sorted 9 name_b (1, []) (at_name name_c) (name_b ∷ [])
      reads_next
