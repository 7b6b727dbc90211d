-- ===== src/Vfs/File/VmoFile/Requests.antt =====
-- Connections to a VMO file, their requests and their end:
-- src/lib/storage/vfs/rust/src/file/vmo/connection/io1.rs and asynchronous.rs.
use Prim.Native.Nat.{bit_or}
use fuchsia_storage.Shared.{
  ℕ, ◌+◌, ◌-◌, ◌^◌, ◌%◌, Bool, true, false, not, ◌&&◌, ◌||◌, length, Option, none, some, ltb,
  if◌then◌else◌, ℤ,
}
use fuchsia_storage.Vfs.Status.{
  Result, ok, err, ◌>>=◌, bad_handle, internal, out_of_range, not_supported,
}
use fuchsia_storage.Vfs.Flags.{
  OpenFlags, ◌∩◌, intersects, only_right_writable, only_right_executable, only_node_reference,
  FioConstants,
}
use fuchsia_storage.Vfs.Common.{inherit_rights_for_clone, ModeBits, rights_to_posix_mode_bits}
use fuchsia_storage.Vfs.File.Flags.Buffer.{
  VmoFlags, Rights, vmo_flags_to_rights, get_buffer_validate_flags,
}
use fuchsia_storage.Vfs.File.Connection.{
  SeekOrigin, start, current, end, offset_from, get_flags_visible,
}
use fuchsia_storage.Vfs.File.Connection.Requests.{
  FileRequest, clone, reopen, close, describe, describe2, sync, get_attr, get_attributes,
  update_attributes, get_flags, advisory_lock, query_filesystem, set_attr, read, read_at,
  write_deprecated, write, write_at, seek, resize, set_flags, get_backing_memory, ConnectionState,
  alive, closed, dropped, panicked, Reply, silent, cloned, current_flags, status, described,
  attributes, bytes, count, memory, filesystem,
}
use fuchsia_storage.Vfs.File.VmoFile.Kernel.{VmoCalls, VmoChildOptions}
use fuchsia_storage.Vfs.File.VmoFile.{
  Initialized, VmoFileState, uninitialized, initialized, VmoFile, VmoFileConnection, Outcome,
  panics, returns, NodeInfo, regular, vmofile, on_initialized, update_initialized, truncate_vmo,
  handle_read_at, handle_read, handle_write_at, handle_write,
}

-- `fio::NodeAttributes`, less what is constant.
pub record NodeAttributes : Type 0 where
  pub mode : ℕ
  pub id : ℕ
  pub content_size : ℕ
  pub storage_size : ℕ

-- What the client is sent: `GetAttr` sends a status with the attributes.
abbrev pub VmoReply : Type 0 → Type 0
VmoReply H = Reply (Result (Unit {0}) × NodeAttributes) (NodeInfo H) (Unit {0}) H

-- A position that is negative or past 63 bits is refused.
unfoldable pub set_seek : VmoFileConnection → Option ℕ → VmoFileConnection × Outcome ℕ
set_seek c none = (c, returns (err out_of_range))
set_seek c (some offset) =
    if ltb offset (2 ^ 63)
    then (record c { seek = offset }, returns (ok offset))
    else (c, returns (err out_of_range))

-- `origin`, an i64, panics past 63 bits.
unfoldable pub seek_by : VmoFileConnection → ℕ → ℤ → VmoFileConnection × Outcome ℕ
unfolding set_seek offset_from
seek_by c origin offset =
    if ltb origin (2 ^ 63) then set_seek c (offset_from origin offset) else (c, panics)

unfoldable pub seek_origin : SeekOrigin → ℕ → ℕ → ℕ
seek_origin start position size = 0
seek_origin current position size = position
seek_origin end position size = size

unfoldable pub handle_close : {V : Type 0} → VmoFileState V → VmoFileState V × Result (Unit {0})
handle_close uninitialized = (uninitialized, err internal)
handle_close (initialized s) = (
  initialized (record s { connection_count = (s.connection_count + 2 ^ 64 - 1) % 2 ^ 64 }),
  ok tt,
)

module _ {V H : Type 0} (calls : VmoCalls V H) where
  unfoldable pub handle_seek :
      VmoFileConnection → VmoFileState V → SeekOrigin → ℤ → VmoFileConnection × Outcome ℕ
  unfolding seek_by seek_origin
  handle_seek c state origin offset =
      if intersects c.flags only_node_reference
      then (c, returns (err bad_handle))
      else on_initialized state (c, returns (err internal))
          (λ s. seek_by c (seek_origin origin c.seek s.size) offset)

  unfoldable pub handle_truncate :
      VmoFileConnection
      → VmoFileState V
      → ℕ
      → VmoFileConnection × VmoFileState V × Result (Unit {0})
  unfolding truncate_vmo
  handle_truncate c state length =
      if not (intersects c.flags only_right_writable)
      then (c, state, err bad_handle)
      else let ((state', seek'), result) = truncate_vmo calls state length c.seek in
        (record c { seek = seek' }, state', result)

  unfoldable pub get_as_shared : V → Rights → Result H
  get_as_shared vmo rights =
      calls.duplicate vmo (record rights { basic = true; map = true; get_property = true })

  unfoldable pub get_as_private : V → Rights → ℕ → Result H
  get_as_private vmo rights size =
      let rights' = record rights {
        basic = true;
        map = true;
        get_property = true;
        set_property = true;
      } in
      let options : VmoChildOptions = record {
        snapshot_at_least_on_write = true;
        no_write = not rights'.write;
        resizable = rights'.write;
      } in
      calls.create_child vmo options size >>= λ child. calls.replace_handle child rights'

  unfoldable pub buffer_of : VmoFlags → Initialized V → Initialized V × Result H
  unfolding get_as_shared get_as_private vmo_flags_to_rights
  buffer_of flags s =
      let (vmo', result) = calls.set_content_size s.vmo s.size in
      (
        record s { vmo = vmo' },
        result >>= λ done.
            if flags.private_clone
            then get_as_private vmo' (vmo_flags_to_rights flags) s.size
            else get_as_shared vmo' (vmo_flags_to_rights flags),
      )

  unfoldable pub buffer_checked :
      VmoFileState V → VmoFlags → Result (Unit {0}) → VmoFileState V × Result H
  unfolding buffer_of
  buffer_checked state flags (err e) = (state, err e)
  buffer_checked state flags (ok valid) =
      if flags.write && not flags.private_clone
      then (state, err not_supported)
      else if flags.execute && flags.write
      then (state, err not_supported)
      else update_initialized state (buffer_of flags)

  unfoldable pub handle_get_buffer :
      VmoFileConnection → VmoFileState V → VmoFlags → VmoFileState V × Result H
  unfolding buffer_checked get_buffer_validate_flags
  handle_get_buffer c state flags =
      buffer_checked state flags (get_buffer_validate_flags flags c.flags)

  -- The rights of the handle that a client without the right to write is shown.
  unfoldable pub described_rights : OpenFlags → Rights → Rights
  described_rights flags rights =
      let rights1 = record rights { write = false; set_property = false } in
      if not (intersects flags only_right_executable)
      then record rights1 { execute = false }
      else rights1

  -- `unwrap` of both calls.
  unfoldable pub duplicated : ℕ → Result H → Outcome (NodeInfo H)
  duplicated size (err e) = panics
  duplicated size (ok handle) = returns (ok (vmofile handle size))

  unfoldable pub vmofile_info : OpenFlags → Initialized V → Result Rights → Outcome (NodeInfo H)
  unfolding duplicated described_rights
  vmofile_info flags s (err e) = panics
  vmofile_info flags s (ok rights) =
      duplicated s.size (calls.duplicate s.vmo (described_rights flags rights))

  unfoldable pub get_node_info : OpenFlags → VmoFileState V → Outcome (NodeInfo H)
  unfolding vmofile_info
  get_node_info flags state =
      if intersects flags only_node_reference || intersects flags only_right_writable
      then returns (ok regular)
      else on_initialized state (returns (err internal))
          (λ s. vmofile_info flags s (calls.rights s.vmo))

  -- `mode_type_file` and the bits of libc are constants that the code takes from elsewhere.
  module _ (k : FioConstants) (bits : ModeBits) (mode_type_file : ℕ) (file : VmoFile) where
    unfoldable pub attributes_of : Result (Unit {0}) → ℕ → ℕ → Result (Unit {0}) × NodeAttributes
    attributes_of result size capacity = (
      result,
      record {
        mode =
            bit_or mode_type_file
              (rights_to_posix_mode_bits bits file.readable file.writable file.executable);
        id = file.inode;
        content_size = size;
        storage_size = capacity;
      },
    )

    unfoldable pub handle_get_attr : VmoFileState V → Result (Unit {0}) × NodeAttributes
    unfolding attributes_of
    handle_get_attr state =
        on_initialized state (attributes_of (err internal) 0 0)
          (λ s. attributes_of (ok tt) s.size s.capacity)

    abbrev pub Handled : Type 0
    Handled = (VmoFileConnection × VmoFileState V) × VmoReply H × ConnectionState

    -- `responder.send(…)?`
    abbrev pub respond : Bool → VmoFileConnection → VmoFileState V → VmoReply H → Handled
    respond sent c state reply = ((c, state), reply, if sent then alive else dropped)

    unfoldable pub respond_outcome :
        {A : Type 0}
        → (Result A → VmoReply H)
        → Bool
        → VmoFileState V
        → VmoFileConnection × Outcome A
        → Handled
    respond_outcome kind sent state (c, panics) = ((c, state), silent, panicked)
    respond_outcome kind sent state (c, returns r) = respond sent c state (kind r)

    -- An error of `get_node_info` shuts the channel down, and the loop goes on.
    unfoldable pub respond_described :
        Bool → VmoFileConnection → VmoFileState V → Outcome (NodeInfo H) → Handled
    respond_described sent c state panics = ((c, state), silent, panicked)
    respond_described sent c state (returns (err e)) = ((c, state), silent, alive)
    respond_described sent c state (returns (ok info)) = respond sent c state (described (ok info))

    -- `handle_request`, where the reply can be sent or not.
    unfoldable pub handle_request :
        VmoFileConnection → VmoFileState V → FileRequest NodeAttributes → Bool → Handled
    unfolding respond_outcome respond_described handle_close handle_seek handle_truncate
        handle_get_buffer get_node_info handle_get_attr handle_read handle_read_at handle_write
        handle_write_at inherit_rights_for_clone
    handle_request c state (clone flags) sent =
        ((c, state), cloned (inherit_rights_for_clone k c.flags flags), alive)
    handle_request c state reopen sent = ((c, state), silent, panicked)
    handle_request c state close sent =
        let (state', result) = handle_close state in ((c, state'), status result, closed)
    handle_request c state describe sent =
        respond_described sent c state (get_node_info c.flags state)
    handle_request c state describe2 sent = ((c, state), silent, panicked)
    handle_request c state sync sent = respond sent c state (status (ok tt))
    handle_request c state get_attr sent =
        respond sent c state (attributes (ok (handle_get_attr state)))
    handle_request c state (set_attr flags attrs) sent =
        respond sent c state (status (err not_supported))
    handle_request c state get_attributes sent = ((c, state), silent, panicked)
    handle_request c state update_attributes sent = ((c, state), silent, panicked)
    handle_request c state (read size) sent =
        respond_outcome bytes sent state (handle_read calls c state size)
    handle_request c state (read_at offset size) sent =
        respond sent c state (bytes (handle_read_at calls c state offset size))
    handle_request c state (write_deprecated content) sent =
        let (c', state', result) = handle_write calls c state content in
        respond sent c' state' (count result)
    handle_request c state (write content) sent =
        let (c', state', result) = handle_write calls c state content in
        respond sent c' state' (count result)
    handle_request c state (write_at offset content) sent =
        let (state', result) = handle_write_at calls c state offset content in
        respond sent c state' (count result)
    handle_request c state (seek origin offset) sent =
        respond_outcome count sent state (handle_seek c state origin offset)
    handle_request c state (resize length) sent =
        let (c', state', result) = handle_truncate c state length in
        respond sent c' state' (status result)
    handle_request c state get_flags sent =
        respond sent c state (current_flags (ok (c.flags ∩ get_flags_visible)))
    handle_request c state (set_flags flags) sent =
        respond sent c state (status (err not_supported))
    handle_request c state (get_backing_memory flags) sent =
        let (state', result) = handle_get_buffer c state flags in
        respond sent c state' (memory result)
    handle_request c state advisory_lock sent = respond sent c state (status (err not_supported))
    handle_request c state query_filesystem sent =
        respond sent c state (filesystem (err not_supported))
