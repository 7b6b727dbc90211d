-- ===== src/Vfs/Directory/Dirent/Tests.antt =====
-- Tests of encoded entries and of reading by index, of
-- src/lib/storage/vfs/rust/src/directory/common.rs and directory/read_dirents.rs.
use fuchsia_storage.Shared.{ℕ, ◌≡◌, refl, Bool, true, false, List, [], ◌∷◌, ◌++◌, some, arith}
use fuchsia_storage.Vfs.Status.{buffer_too_small}
use fuchsia_storage.Vfs.Directory.Entries.{Name, EntryInfo, file}
use fuchsia_storage.Vfs.Directory.Simple.Reading.{at_index, ok_sink, sealed, SinkOps}
use fuchsia_storage.Vfs.Directory.Dirent.{
  DirentConstants, dirent, encode_dirent, DirentSink, Done, fit_one, empty_sink, append,
}
use fuchsia_storage.Vfs.Directory.Dirent.Fits.{IsOpen, append-IsOpen}
use fuchsia_storage.Vfs.Directory.Indexed.{Listed, read_listed}

abbrev constants : DirentConstants
constants = record { max_filename = 255; into_primitive = λ t. 8 }

abbrev info : EntryInfo
info = record { inode = 258; dirent_type = file }

abbrev name_a : Name
name_a = b'a' ∷ []

abbrev encoded : List ℕ
encoded = 2 ∷ 1 ∷ 0 ∷ 0 ∷ 0 ∷ 0 ∷ 0 ∷ 0 ∷ 1 ∷ 8 ∷ b'a' ∷ []

encodes : encode_dirent constants [] 11 info name_a ≡ some (encoded, true)
unfolding encode_dirent
encodes = refl

abbrev filled : DirentSink
filled = record { buf = encoded; max_bytes = 20; state = fit_one }

appends : append constants (empty_sink 20) info name_a ≡ some (ok_sink filled)
unfolding append
appends = refl

abbrev refused : Done
refused = record { buf = []; status = some buffer_too_small }

refuses : append constants (empty_sink 10) info name_a ≡ some (sealed refused)
unfolding append
refuses = refl

empty-IsOpen : (n : ℕ) → IsOpen (empty_sink n)
empty-IsOpen n = record { bounded = omega arith; filled = refl }

append-IsOpen_example :
    IsOpen filled
    × (filled.buf ≡ (empty_sink 20).buf ++ dirent constants info name_a)
    × (filled.max_bytes ≡ (empty_sink 20).max_bytes)
append-IsOpen_example =
    append-IsOpen constants (empty_sink 20) filled info name_a (empty-IsOpen 20) appends

-- A sink that has room for one name.
abbrev one_name : SinkOps Bool (List ℕ)
one_name = record {
  append = λ room info name. elim room [ true ↦ ok_sink false | false ↦ sealed [] ];
  seal = λ room. [];
}

abbrev entries : Listed
entries = (info, name_a) ∷ (info, b'b' ∷ []) ∷ (info, b'c' ∷ []) ∷ []

reads : read_listed one_name 0 entries (at_index 1) true ≡ some (at_index 2, [])
unfolding read_listed
reads = refl
