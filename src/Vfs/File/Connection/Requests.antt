-- ===== src/Vfs/File/Connection/Requests.antt =====
-- Requests on a file connection and the loop over them:
-- src/lib/storage/vfs/rust/src/file/connection/io1.rs and util.rs.
use fuchsia_storage.Shared.{ℕ, Bool, true, false, ℤ, List, [], ◌∷◌, if◌then◌else◌}
use fuchsia_storage.Vfs.Status.{Status, Result, ok, err, not_supported, bad_handle}
use fuchsia_storage.Vfs.Flags.{
  OpenFlags, ◌∩◌, intersects, only_truncate, only_describe, FioConstants,
}
use fuchsia_storage.Vfs.Common.{inherit_rights_for_clone}
use fuchsia_storage.Vfs.File.Flags.{new_connection_validate_flags}
use fuchsia_storage.Vfs.File.Flags.Buffer.{VmoFlags}
use fuchsia_storage.Vfs.File.Connection.{
  File, FileConnection, SeekOrigin, get_flags_visible, replace_append, handle_read_at, handle_read,
  handle_write_at, handle_write, handle_seek, handle_set_attr, handle_truncate, handle_get_buffer,
}

pub data ConnectionState : Type 0 where
  alive closed dropped panicked : ConnectionState

-- `fio::FileRequest`
pub data FileRequest (Attrs : Type 0) : Type 0 where
  clone : OpenFlags → FileRequest Attrs
  reopen close describe describe2 sync get_attr get_attributes : FileRequest Attrs
  update_attributes get_flags advisory_lock query_filesystem : FileRequest Attrs
  set_attr : ℕ → Attrs → FileRequest Attrs
  read : ℕ → FileRequest Attrs
  read_at : ℕ → ℕ → FileRequest Attrs
  write_deprecated write : List ℕ → FileRequest Attrs
  write_at : ℕ → List ℕ → FileRequest Attrs
  seek : SeekOrigin → ℤ → FileRequest Attrs
  resize : ℕ → FileRequest Attrs
  set_flags : OpenFlags → FileRequest Attrs
  get_backing_memory : VmoFlags → FileRequest Attrs

-- What the client is sent; `cloned` is what the new connection is opened with or refused with, and
-- `silent` no reply at all.
pub data Reply (Attrs Info Fs Vmo : Type 0) : Type 0 where
  silent : Reply Attrs Info Fs Vmo
  cloned current_flags : Result OpenFlags → Reply Attrs Info Fs Vmo
  status : Result (Unit {0}) → Reply Attrs Info Fs Vmo
  described : Result Info → Reply Attrs Info Fs Vmo
  attributes : Result Attrs → Reply Attrs Info Fs Vmo
  bytes : Result (List ℕ) → Reply Attrs Info Fs Vmo
  count : Result ℕ → Reply Attrs Info Fs Vmo
  memory : Result Vmo → Reply Attrs Info Fs Vmo
  filesystem : Result Fs → Reply Attrs Info Fs Vmo

-- What the loop waits for: a request with whether its reply can be sent, a message that is not
-- valid, the end of the stream, or the shutdown of the scope.
pub data Event (Attrs : Type 0) : Type 0 where
  request : FileRequest Attrs → Bool → Event Attrs
  malformed end_of_stream shutdown : Event Attrs

module _ {F Attrs Info Fs Vmo : Type 0} (file : File F Attrs Info Fs Vmo) (max_buf : ℕ)
    (k : FioConstants) where
  -- What a request leaves: the connection, the reply and the state of the connection.
  abbrev pub Handled : Type 0
  Handled = FileConnection F × Reply Attrs Info Fs Vmo × ConnectionState

  -- `responder.send(…)?`
  unfoldable pub respond : Bool → FileConnection F × Reply Attrs Info Fs Vmo → Handled
  respond sent (c, reply) = (c, reply, if sent then alive else dropped)

  abbrev pub replying :
      {A : Type 0}
      → (Result A → Reply Attrs Info Fs Vmo)
      → FileConnection F × Result A
      → FileConnection F × Reply Attrs Info Fs Vmo
  replying kind (c, result) = (c, kind result)

  abbrev pub file_call :
      {A : Type 0} → FileConnection F → F × Result A → FileConnection F × Result A
  file_call c (f, result) = (record c { file = f }, result)

  -- `OpenFile::close`: the file is taken, so that it is closed once.
  unfoldable pub close_file : FileConnection F → FileConnection F × Result (Unit {0})
  close_file c =
      if c.is_open
      then file_call (record c { is_open = false }) (file.close c.file)
      else (c, err bad_handle)

  unfoldable pub respond_closed : Bool → FileConnection F × Result (Unit {0}) → Handled
  respond_closed sent (c, result) = (c, status result, if sent then closed else dropped)

  -- An error of `describe` ends the connection before there is a reply.
  unfoldable pub respond_described : FileConnection F → Bool → Result Info → Handled
  unfolding respond
  respond_described c sent (err e) = (c, silent, dropped)
  respond_described c sent (ok info) = respond sent (c, described (ok info))

  -- `handle_request`, where the reply can be sent or not.
  unfoldable pub handle_request : FileConnection F → FileRequest Attrs → Bool → Handled
  unfolding respond close_file respond_closed respond_described inherit_rights_for_clone
      handle_read_at handle_read handle_write_at handle_write handle_seek handle_set_attr
      handle_truncate handle_get_buffer replace_append
  handle_request c (clone flags) sent =
      (c, cloned (inherit_rights_for_clone k c.flags flags), alive)
  handle_request c reopen sent = (c, silent, panicked)
  handle_request c close sent = respond_closed sent (close_file c)
  handle_request c describe sent = respond_described c sent (file.describe c.file c.flags)
  handle_request c describe2 sent = (c, silent, panicked)
  handle_request c sync sent = respond sent (replying status (file_call c (file.sync c.file)))
  handle_request c get_attr sent =
      respond sent (replying attributes (file_call c (file.get_attrs c.file)))
  handle_request c get_attributes sent = (c, silent, panicked)
  handle_request c update_attributes sent = (c, silent, panicked)
  handle_request c get_flags sent =
      respond sent (c, current_flags (ok (c.flags ∩ get_flags_visible)))
  handle_request c advisory_lock sent = respond sent (c, status (err not_supported))
  handle_request c query_filesystem sent =
      respond sent (c, filesystem (file.query_filesystem c.file))
  handle_request c (set_attr flags attrs) sent =
      respond sent (replying status (handle_set_attr file max_buf c flags attrs))
  handle_request c (read size) sent =
      respond sent (replying bytes (handle_read file max_buf c size))
  handle_request c (read_at offset size) sent =
      respond sent (replying bytes (handle_read_at file max_buf c offset size))
  handle_request c (write_deprecated content) sent =
      respond sent (replying count (handle_write file max_buf c content))
  handle_request c (write content) sent =
      respond sent (replying count (handle_write file max_buf c content))
  handle_request c (write_at offset content) sent =
      respond sent (replying count (handle_write_at file max_buf c offset content))
  handle_request c (seek origin offset) sent =
      respond sent (replying count (handle_seek file max_buf c origin offset))
  handle_request c (resize size) sent =
      respond sent (replying status (handle_truncate file max_buf c size))
  handle_request c (set_flags flags) sent =
      respond sent (record c { flags = replace_append c.flags flags }, status (ok tt))
  handle_request c (get_backing_memory flags) sent =
      respond sent (replying memory (handle_get_buffer file max_buf c flags))

  -- `Drop` of the `OpenFile` closes a file that is still open.
  unfoldable pub drop_file : FileConnection F → FileConnection F
  unfolding close_file
  drop_file c = if c.is_open then (close_file c).0 else c

  abbrev pub Left : Type 0
  Left = FileConnection F × List (Reply Attrs Info Fs Vmo)

  -- The end of a round of the loop, where `rest` is what the next rounds leave.
  unfoldable pub end_round :
      ConnectionState → FileConnection F → Reply Attrs Info Fs Vmo → Left → Left
  unfolding drop_file
  end_round alive c reply rest = (rest.0, reply ∷ rest.1)
  end_round closed c reply rest = (drop_file c, reply ∷ [])
  end_round dropped c reply rest = (drop_file c, reply ∷ [])
  end_round panicked c reply rest = (drop_file c, reply ∷ [])

  -- `handle_requests`: the connection that is left, and the replies. After the last event the loop
  -- waits.
  unfoldable pub handle_requests : FileConnection F → List (Event Attrs) → Left
  unfolding handle_request end_round drop_file
  handle_requests c [] = (c, [])
  handle_requests c (request req sent ∷ events) =
      let (c', reply, state) = handle_request c req sent in
      end_round state c' reply (handle_requests c' events)
  handle_requests c (malformed ∷ events) = (drop_file c, [])
  handle_requests c (end_of_stream ∷ events) = (drop_file c, [])
  handle_requests c (shutdown ∷ events) = (drop_file c, [])

  -- The file that is left where a connection is refused: the `OpenFile` closes it.
  abbrev pub refuse : {A : Type 0} → F → Status → F × Result A
  refuse f e = ((file.close f).0, err e)

  unfoldable pub connect : F → OpenFlags → FileConnection F
  connect f flags = record { file = f; is_open = true; flags = flags; seek = 0 }

  unfoldable pub describe_new : F → OpenFlags → Result Info → F × Result (FileConnection F)
  unfolding connect
  describe_new f flags (err e) = refuse f e
  describe_new f flags (ok info) = (f, ok (connect f flags))

  unfoldable pub truncated : OpenFlags → F × Result (Unit {0}) → F × Result (FileConnection F)
  unfolding describe_new connect
  truncated flags (f, err e) = refuse f e
  truncated flags (f, ok res) =
      if intersects flags only_describe
      then describe_new f flags (file.describe f flags)
      else (f, ok (connect f flags))

  unfoldable pub opened : OpenFlags → F × Result (Unit {0}) → F × Result (FileConnection F)
  unfolding truncated
  opened flags (f, err e) = refuse f e
  opened flags (f, ok res) =
      truncated flags (if intersects flags only_truncate then file.truncate f 0 else (f, ok tt))

  unfoldable pub open_validated : F → Result OpenFlags → F × Result (FileConnection F)
  unfolding opened
  open_validated f (err e) = refuse f e
  open_validated f (ok flags) = opened flags (file.open_file f flags)

  -- `create_connection_async` up to the connection, or the status that the client is sent. That the
  -- channel of the client is still there is taken for granted.
  unfoldable pub create_connection :
      F → OpenFlags → Bool → Bool → Bool → F × Result (FileConnection F)
  unfolding open_validated new_connection_validate_flags
  create_connection f flags readable writable executable =
      open_validated f (new_connection_validate_flags k flags readable writable executable true)
