-- ===== src/Vfs/File/Connection.antt =====
-- A connection to a file: src/lib/storage/vfs/rust/src/file/connection/io1.rs and util.rs. The
-- file, an implementation of the trait `File`, is the parameter `File`, its states are of the type
-- `F`. The client is a list of events; a reply that cannot be sent is `sent = false`. A `todo!` is
-- `panicked`, which ends the task.
pub mod Requests
pub mod Offsets
pub mod Laws
pub mod History
pub mod ReadOnly
use fuchsia_storage.Shared.{
  ℕ, suc, ◌+◌, ◌-◌, ◌%◌, ◌^◌, Bool, true, false, not, ◌&&◌, List, [], ◌∷◌, length, Option, none,
  some, leb, ltb, if◌then◌else◌, ℤ, pos, negsuc,
}
use fuchsia_storage.Vfs.Status.{
  Status, Result, ok, err, reject, bad_handle, out_of_range, not_supported, ◌>>=◌,
}
use fuchsia_storage.Vfs.Flags.{
  OpenFlags, ◌∪◌, ◌∩◌, complement, intersects, only_append, only_right_readable,
  only_right_writable, only_right_executable, only_node_reference, only_truncate, only_describe,
  FioConstants,
}
use fuchsia_storage.Vfs.Common.{inherit_rights_for_clone}
use fuchsia_storage.Vfs.File.Flags.{new_connection_validate_flags}
use fuchsia_storage.Vfs.File.Flags.Buffer.{VmoFlags, get_buffer_validate_flags}

-- What the trait `File` asks of a file: `read_at` returns the bytes that it has put at the start of
-- the buffer, `append` how many bytes it took and the offset after them. `Attrs`, `Info`, `Fs` and
-- `Vmo` are the values that a connection passes on.
pub record File (F Attrs Info Fs Vmo : Type 0) : Type 0 where
  pub open_file : F → OpenFlags → F × Result (Unit {0})
  pub read_at : F → ℕ → ℕ → F × Result (List ℕ)
  pub write_at : F → ℕ → List ℕ → F × Result ℕ
  pub append : F → List ℕ → F × Result (ℕ × ℕ)
  pub truncate : F → ℕ → F × Result (Unit {0})
  pub get_buffer : F → VmoFlags → F × Result Vmo
  pub get_size : F → F × Result ℕ
  pub get_attrs : F → F × Result Attrs
  pub set_attrs : F → ℕ → Attrs → F × Result (Unit {0})
  pub sync : F → F × Result (Unit {0})
  pub close : F → F × Result (Unit {0})
  pub describe : F → OpenFlags → Result Info
  pub query_filesystem : F → Result Fs

-- `FileConnection`; `is_open` is whether the `OpenFile` still has its file.
pub record FileConnection (F : Type 0) : Type 0 where
  pub file : F
  pub is_open : Bool
  pub flags : OpenFlags
  pub seek : ℕ

pub data SeekOrigin : Type 0 where
  start current end : SeekOrigin

abbrev pub get_flags_visible : OpenFlags
get_flags_visible =
    (((only_right_readable ∪ only_right_writable) ∪ only_right_executable) ∪ only_append)
    ∪ only_node_reference

-- `(self.flags & !APPEND) | (flags & APPEND)`
unfoldable pub replace_append : OpenFlags → OpenFlags → OpenFlags
replace_append old flags = (old ∩ complement only_append) ∪ (flags ∩ only_append)

-- `new_seek`, an i128: none where it is negative.
unfoldable pub offset_from : ℕ → ℤ → Option ℕ
offset_from base (pos n) = some (base + n)
offset_from base (negsuc n) = if leb (suc n) base then some (base - suc n) else none

module _ {F : Type 0} where
  -- `new_seek as u64` keeps the low 64 bits.
  unfoldable pub set_seek : FileConnection F → Option ℕ → FileConnection F × Result ℕ
  set_seek c none = (c, err out_of_range)
  set_seek c (some new_seek) = let seek = new_seek % 2 ^ 64 in (record c { seek = seek }, ok seek)

  -- `self.seek += count` after a read.
  unfoldable pub advance : FileConnection F → Result (List ℕ) → FileConnection F × Result (List ℕ)
  advance c (err e) = (c, err e)
  advance c (ok buffer) = (record c { seek = (c.seek + length buffer) % 2 ^ 64 }, ok buffer)

  unfoldable pub advance_written : FileConnection F → Result ℕ → FileConnection F × Result ℕ
  advance_written c (err e) = (c, err e)
  advance_written c (ok actual) = (record c { seek = (c.seek + actual) % 2 ^ 64 }, ok actual)

  unfoldable pub move_to_end : FileConnection F → Result (ℕ × ℕ) → FileConnection F × Result ℕ
  move_to_end c (err e) = (c, err e)
  move_to_end c (ok (bytes, offset)) = (record c { seek = offset }, ok bytes)

  -- The arm of `SeekOrigin::End`, with the size that `get_size` returned.
  unfoldable pub seek_from_end : FileConnection F → ℤ → Result ℕ → FileConnection F × Result ℕ
  unfolding set_seek offset_from
  seek_from_end c offset (err e) = (c, err e)
  seek_from_end c offset (ok size) = set_seek c (offset_from size offset)

module _ {F Attrs Info Fs Vmo : Type 0} (file : File F Attrs Info Fs Vmo) (max_buf : ℕ) where
  unfoldable pub handle_read_at : FileConnection F → ℕ → ℕ → FileConnection F × Result (List ℕ)
  handle_read_at c offset count =
      if not (intersects c.flags only_right_readable)
      then (c, err bad_handle)
      else if ltb max_buf count
      then (c, err out_of_range)
      else let (f, result) = file.read_at c.file offset count in (record c { file = f }, result)

  unfoldable pub handle_read : FileConnection F → ℕ → FileConnection F × Result (List ℕ)
  unfolding handle_read_at advance
  handle_read c count = let (c', result) = handle_read_at c c.seek count in advance c' result

  unfoldable pub handle_write_at : FileConnection F → ℕ → List ℕ → FileConnection F × Result ℕ
  handle_write_at c offset content =
      if not (intersects c.flags only_right_writable)
      then (c, err bad_handle)
      else let (f, result) = file.write_at c.file offset content in (record c { file = f }, result)

  unfoldable pub handle_write : FileConnection F → List ℕ → FileConnection F × Result ℕ
  unfolding handle_write_at advance_written move_to_end
  handle_write c content =
      if not (intersects c.flags only_right_writable)
      then (c, err bad_handle)
      else if intersects c.flags only_append
      then (let (f, result) = file.append c.file content in
          move_to_end (record c { file = f }) result)
      else (let (c', result) = handle_write_at c c.seek content in advance_written c' result)

  unfoldable pub handle_seek : FileConnection F → SeekOrigin → ℤ → FileConnection F × Result ℕ
  unfolding seek_from_end set_seek offset_from
  handle_seek c origin offset =
      if intersects c.flags only_node_reference then (c, err bad_handle) else elim origin [
        | start ↦ set_seek c (offset_from 0 offset)
        | current ↦ set_seek c (offset_from c.seek offset)
        | end ↦
            let (f, size) = file.get_size c.file in
            seek_from_end (record c { file = f }) offset size
      ]

  unfoldable pub handle_set_attr :
      FileConnection F → ℕ → Attrs → FileConnection F × Result (Unit {0})
  handle_set_attr c flags attrs =
      if not (intersects c.flags only_right_writable)
      then (c, err bad_handle)
      else let (f, result) = file.set_attrs c.file flags attrs in (record c { file = f }, result)

  unfoldable pub handle_truncate : FileConnection F → ℕ → FileConnection F × Result (Unit {0})
  handle_truncate c length =
      if not (intersects c.flags only_right_writable)
      then (c, err bad_handle)
      else let (f, result) = file.truncate c.file length in (record c { file = f }, result)

  unfoldable pub buffer_of :
      FileConnection F → VmoFlags → Result (Unit {0}) → FileConnection F × Result Vmo
  buffer_of c flags (err e) = (c, err e)
  buffer_of c flags (ok valid) =
      let (f, result) = file.get_buffer c.file flags in (record c { file = f }, result)

  unfoldable pub handle_get_buffer : FileConnection F → VmoFlags → FileConnection F × Result Vmo
  unfolding buffer_of get_buffer_validate_flags
  handle_get_buffer c flags = buffer_of c flags (get_buffer_validate_flags flags c.flags)
