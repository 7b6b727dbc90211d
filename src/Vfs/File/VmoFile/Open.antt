-- ===== src/Vfs/File/VmoFile/Open.antt =====
-- How a connection to a VMO file begins and ends:
-- src/lib/storage/vfs/rust/src/file/vmo/asynchronous.rs and connection/io1.rs.
use fuchsia_storage.Shared.{ℕ, ◌+◌, ◌^◌, ◌%◌, Bool, false, ltb, if◌then◌else◌}
use fuchsia_storage.Vfs.Status.{Status, Result, ok, err, internal, not_dir, unavailable}
use fuchsia_storage.Vfs.Flags.{OpenFlags, intersects, only_truncate, only_describe, FioConstants}
use fuchsia_storage.Vfs.Common.{ModeBits}
use fuchsia_storage.Vfs.File.Flags.{new_connection_validate_flags}
use fuchsia_storage.Vfs.File.Connection.Requests.{
  ConnectionState, alive, closed, dropped, panicked, Event, request, malformed, end_of_stream,
  shutdown,
}
use fuchsia_storage.Vfs.File.VmoFile.Kernel.{VmoCalls}
use fuchsia_storage.Vfs.File.VmoFile.{
  VmoFileState, uninitialized, initialized, NewVmo, VmoFile, VmoFileConnection, Outcome, panics,
  returns, NodeInfo, truncate_vmo,
}
use fuchsia_storage.Vfs.File.VmoFile.Requests.{
  NodeAttributes, get_node_info, handle_close, handle_request,
}

-- `VmoFile::new_with_inode`, with the state that the file starts in.
unfoldable pub new_with_inode : {V : Type 0} → Bool → Bool → Bool → ℕ → VmoFile × VmoFileState V
new_with_inode readable writable executable inode = (
  record { readable = readable; writable = writable; executable = executable; inode = inode },
  uninitialized,
)

-- How an open ends: refused with a status, connected, or given up after the connection was counted.
pub data Opened : Type 0 where
  refused : Status → Opened
  connected : VmoFileConnection → Opened
  abandoned : Opened

-- What the end of the channel of the client lets through: that it turns into a stream, and that
-- the OnOpen event is sent.
pub record ServerEnd : Type 0 where
  pub into_stream : Bool
  pub on_open_sent : Bool

-- Whether the task of a connection goes on, and with what.
pub data Served : Type 0 where
  continues : VmoFileConnection → Served
  ended aborted : Served

module _ {V H : Type 0} (calls : VmoCalls V H) where
  abbrev fresh_state : V → ℕ → ℕ → ℕ → VmoFileState V
  fresh_state vmo size vmo_size capacity = initialized (record {
    vmo = vmo;
    size = size;
    vmo_size = vmo_size;
    capacity = capacity;
    connection_count = 0;
  })

  unfoldable pub grown : NewVmo V → V → Result ℕ → VmoFileState V × Result (Unit {0})
  grown new vmo (err e) = (uninitialized, err e)
  grown new vmo (ok vmo_size) = (fresh_state vmo new.size vmo_size new.capacity, ok tt)

  -- A VMO that is smaller than the file is to grow, or the file is cut to it.
  unfoldable pub recover : NewVmo V → ℕ → V × Result (Unit {0}) → VmoFileState V × Result (Unit {0})
  unfolding grown
  recover new vmo_size (vmo, ok res) = grown new vmo (calls.get_size vmo)
  recover new vmo_size (vmo, err unavailable) =
      (fresh_state vmo vmo_size vmo_size new.capacity, ok tt)
  recover new vmo_size (vmo, err e) = (uninitialized, err e)

  unfoldable pub init_sized : NewVmo V → Result ℕ → VmoFileState V × Result (Unit {0})
  unfolding recover
  init_sized new (err e) = (uninitialized, err e)
  init_sized new (ok vmo_size) =
      if ltb vmo_size new.size
      then recover new vmo_size (calls.set_size new.vmo new.size)
      else (fresh_state new.vmo new.size vmo_size new.capacity, ok tt)

  -- `init` is what `init_vmo` returns, where it is called.
  unfoldable pub ensure_vmo :
      VmoFileState V → Result (NewVmo V) → VmoFileState V × Result (Unit {0})
  unfolding init_sized
  ensure_vmo (initialized s) init = (initialized s, ok tt)
  ensure_vmo uninitialized (err e) = (uninitialized, err e)
  ensure_vmo uninitialized (ok new) = init_sized new (calls.get_size new.vmo)

  unfoldable pub describe_new : VmoFileConnection → Bool → Outcome (NodeInfo H) → Opened
  describe_new c on_open_sent (returns (ok info)) = if on_open_sent then connected c else abandoned
  describe_new c on_open_sent (returns (err e)) = abandoned
  describe_new c on_open_sent panics = abandoned

  -- The connection is counted, and then made.
  unfoldable pub connect : OpenFlags → ServerEnd → VmoFileState V → VmoFileState V × Opened
  unfolding describe_new get_node_info
  connect flags server_end uninitialized = (uninitialized, refused internal)
  connect flags server_end (initialized s) =
      let state = initialized (record s { connection_count = (s.connection_count + 1) % 2 ^ 64 }) in
      let c : VmoFileConnection = record { flags = flags; seek = 0 } in
      (
        state,
        if server_end.into_stream
            then if intersects flags only_describe
              then describe_new c server_end.on_open_sent (get_node_info calls flags state)
              else connected c
            else abandoned,
      )

  unfoldable pub connect_truncated :
      OpenFlags → ServerEnd → (VmoFileState V × ℕ) × Result (Unit {0}) → VmoFileState V × Opened
  unfolding connect
  connect_truncated flags server_end ((state, seek), err e) = (state, refused e)
  connect_truncated flags server_end ((state, seek), ok res) = connect flags server_end state

  unfoldable pub truncate_new :
      OpenFlags → ServerEnd → VmoFileState V × Result (Unit {0}) → VmoFileState V × Opened
  unfolding connect connect_truncated truncate_vmo
  truncate_new flags server_end (state, err e) = (state, refused e)
  truncate_new flags server_end (state, ok res) =
      if intersects flags only_truncate
      then connect_truncated flags server_end (truncate_vmo calls state 0 0)
      else connect flags server_end state

  unfoldable pub create_validated :
      ServerEnd → VmoFileState V → Result (NewVmo V) → Result OpenFlags → VmoFileState V × Opened
  unfolding truncate_new ensure_vmo
  create_validated server_end state init (err e) = (state, refused e)
  create_validated server_end state init (ok flags) =
      truncate_new flags server_end (ensure_vmo state init)

  module _ (k : FioConstants) (file : VmoFile) where
    -- `create_connection_task` up to the loop over the requests.
    unfoldable pub create_connection :
        OpenFlags → ServerEnd → Result (NewVmo V) → VmoFileState V → VmoFileState V × Opened
    unfolding create_validated new_connection_validate_flags
    create_connection flags server_end init state =
        create_validated server_end state init
          (new_connection_validate_flags k flags file.readable file.writable file.executable false)

    -- `DirectoryEntry::open`, where `is_empty` is whether the path is.
    unfoldable pub open_entry :
        OpenFlags → Bool → ServerEnd → Result (NewVmo V) → VmoFileState V → VmoFileState V × Opened
    unfolding create_connection
    open_entry flags is_empty server_end init state =
        if is_empty then create_connection flags server_end init state else (state, refused not_dir)

    -- The end of a round of `handle_requests`: a connection that is dropped is closed.
    unfoldable pub end_round :
        ConnectionState → VmoFileConnection → VmoFileState V → VmoFileState V × Served
    unfolding handle_close
    end_round alive c state = (state, continues c)
    end_round closed c state = (state, ended)
    end_round dropped c state = ((handle_close state).0, ended)
    end_round panicked c state = (state, aborted)

    -- A round of `handle_requests`. Where the scope shuts down the task is dropped as it is.
    unfoldable pub handle_event :
        ModeBits
        → ℕ
        → VmoFileConnection
        → VmoFileState V
        → Event NodeAttributes
        → VmoFileState V × Served
    unfolding handle_request end_round
    handle_event bits mode_type_file c state (request req sent) =
        let ((c', state'), reply, next) =
          handle_request calls k bits mode_type_file file c state req sent in
        end_round next c' state'
    handle_event bits mode_type_file c state malformed = end_round dropped c state
    handle_event bits mode_type_file c state end_of_stream = end_round dropped c state
    handle_event bits mode_type_file c state shutdown = (state, aborted)
