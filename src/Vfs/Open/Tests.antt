-- ===== src/Vfs/Open/Tests.antt =====
-- Tests of `open` of src/lib/storage/vfs/rust/src/directory/simple.rs.
use fuchsia_storage.Shared.{[], ◌∷◌, false, ◌≡◌, refl}
use fuchsia_storage.Vfs.Status.{ok, err, not_found, already_exists}
use fuchsia_storage.Vfs.Flags.{none_set, only_create_if_absent}
use fuchsia_storage.Vfs.Directory.Entries.{Name, Entry, file, get, insert}
use fuchsia_storage.Vfs.Directory.Simple.{Inner}
use fuchsia_storage.Vfs.PathString.{PathString, dot_path}
use fuchsia_storage.Vfs.Open.{connects_here, opens, not_found_at, open_step}

abbrev name_a : Name
name_a = b'a' ∷ []

abbrev name_b : Name
name_b = b'b' ∷ []

abbrev a_file : Entry
a_file = record { object = 1; info = record { inode = 0; dirent_type = file } }

abbrev one_file : Inner
one_file = record { entries = (name_a, a_file) ∷ []; events = [] }

-- "a/b"
abbrev a_b : PathString
a_b = record { is_dir = false; inner = b'a' ∷ b'/' ∷ b'b' ∷ []; next_index = 0 }

abbrev only_b : PathString
only_b = record { is_dir = false; inner = name_b; next_index = 0 }

here : open_step one_file none_set (λ name path. err not_found) dot_path ≡ (one_file, connects_here)
unfolding open_step
here = refl

through :
    open_step one_file none_set (λ name path. err not_found) a_b
    ≡ (one_file, opens a_file (record a_b { next_index = 2 }))
unfolding open_step get
through = refl

exists :
    open_step one_file only_create_if_absent (λ name path. err not_found) a_b
    ≡ (one_file, not_found_at name_a already_exists)
unfolding open_step get
exists = refl

creates : open_step one_file none_set (λ name path. ok a_file) only_b ≡ (
  record { entries = (name_a, a_file) ∷ (name_b, a_file) ∷ []; events = [] },
  opens a_file (record only_b { next_index = 1 }),
)
unfolding open_step get insert
creates = refl
