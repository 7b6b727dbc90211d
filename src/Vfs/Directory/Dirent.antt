-- ===== src/Vfs/Directory/Dirent.antt =====
-- Encoded directory entries: `encode_dirent` of src/lib/storage/vfs/rust/src/directory/common.rs
-- and the sink of src/lib/storage/vfs/rust/src/directory/read_dirents.rs that fills a buffer with
-- them. A failed `assert!` is `none`; writes to the vector do not fail.
pub mod Fits
mod Tests
use fuchsia_storage.Shared.{
  ℕ, ◌+◌, ◌*◌, ◌/◌, ◌%◌, ◌^◌, Bool, true, false, List, [], ◌∷◌, ◌++◌, Option, none, some, ltb, leb,
  length, if◌then◌else◌, ◌&&◌,
}
use fuchsia_storage.Vfs.Status.{Status, buffer_too_small}
use fuchsia_storage.Vfs.Directory.Entries.{Name, EntryInfo, DirentType}
use fuchsia_storage.Vfs.Directory.Simple.Reading.{AppendResult, ok_sink, sealed}

-- What fuchsia.io generates: `MAX_FILENAME` and the number of each `DirentType`.
pub record DirentConstants : Type 0 where
  pub max_filename : ℕ
  pub into_primitive : DirentType → ℕ

-- `write_u64::<LittleEndian>`
unfoldable pub little_endian : ℕ → List ℕ
little_endian n =
    n % 256
    ∷ n / 2 ^ 8 % 256
    ∷ n / 2 ^ 16 % 256
    ∷ n / 2 ^ 24 % 256
    ∷ n / 2 ^ 32 % 256
    ∷ n / 2 ^ 40 % 256
    ∷ n / 2 ^ 48 % 256
    ∷ n / 2 ^ 56 % 256
    ∷ []

-- `size_of::<u64>() + size_of::<u8>() + size_of::<u8>()`
abbrev pub header_size : ℕ
header_size = 10

unfoldable pub dirent : DirentConstants → EntryInfo → Name → List ℕ
unfolding little_endian
dirent k entry name =
    little_endian entry.inode ++ (length name % 256) ∷ k.into_primitive entry.dirent_type ∷ name

-- The buffer afterwards, with whether the entry fit.
unfoldable pub encode_dirent :
    DirentConstants → List ℕ → ℕ → EntryInfo → Name → Option (List ℕ × Bool)
unfolding dirent
encode_dirent k buf max_bytes entry name =
    if ltb max_bytes (length buf + header_size + length name)
    then some (buf, false)
    else if leb (length name) k.max_filename && leb k.max_filename 255
    then some (buf ++ dirent k entry name, true)
    else none

pub data SinkState : Type 0 where
  not_called did_not_fit fit_one : SinkState

-- `Sink`
pub record DirentSink : Type 0 where
  pub buf : List ℕ
  pub max_bytes : ℕ
  pub state : SinkState

-- `Done`; no status is `Status::OK`.
pub record Done : Type 0 where
  pub buf : List ℕ
  pub status : Option Status

abbrev pub empty_sink : ℕ → DirentSink
empty_sink max_bytes = record { buf = []; max_bytes = max_bytes; state = not_called }

abbrev pub sealed_status : SinkState → Option Status
sealed_status not_called = none
sealed_status fit_one = none
sealed_status did_not_fit = some buffer_too_small

unfoldable pub seal : DirentSink → Done
seal sink = record { buf = sink.buf; status = sealed_status sink.state }

-- The state after a first call, and no change after a later one.
abbrev pub called : SinkState → SinkState → SinkState
called not_called first = first
called did_not_fit first = did_not_fit
called fit_one first = fit_one

abbrev append_encoded : DirentSink → Option (List ℕ × Bool) → Option (AppendResult DirentSink Done)
append_encoded sink none = none
append_encoded sink (some (buf, false)) =
    some (sealed (seal (record sink { buf = buf; state = called sink.state did_not_fit })))
append_encoded sink (some (buf, true)) =
    some (ok_sink (record sink { buf = buf; state = called sink.state fit_one }))

unfoldable pub append :
    DirentConstants → DirentSink → EntryInfo → Name → Option (AppendResult DirentSink Done)
unfolding encode_dirent seal
append k sink entry name = append_encoded sink (encode_dirent k sink.buf sink.max_bytes entry name)
