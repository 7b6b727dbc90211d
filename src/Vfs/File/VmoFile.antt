-- ===== src/Vfs/File/VmoFile.antt =====
-- Files that are backed by a VMO, and their connections: src/lib/storage/vfs/rust/src/file/vmo/
-- asynchronous.rs and connection/io1.rs, as a release build runs them (a `debug_assert!` does
-- nothing). The calls on the VMO are the parameter `VmoCalls`; `V` is the VMO, `H` a handle.
pub mod Kernel
pub mod Requests
pub mod Open
pub mod Ends
pub mod Valid
pub mod Handlers
pub mod Rounds
pub mod Bytes
pub mod Ensured
pub mod Opening
pub mod System
pub mod Counted
pub mod Contract
mod Tests
use fuchsia_storage.Shared.{
  ℕ, ◌+◌, ◌-◌, ◌^◌, ◌%◌, Bool, true, false, not, ◌&&◌, List, [], length, take, Option, none, some,
  ltb, leb, if◌then◌else◌, ℤ, min, max,
}
use fuchsia_storage.Vfs.Status.{
  Status, Result, ok, err, ◌>>=◌, bad_handle, internal, out_of_range, not_supported, unavailable,
}
use fuchsia_storage.Vfs.Flags.{
  OpenFlags, intersects, only_right_readable, only_right_writable, only_right_executable,
  only_node_reference,
}
use fuchsia_storage.Vfs.File.Flags.Buffer.{
  VmoFlags, Rights, vmo_flags_to_rights, get_buffer_validate_flags,
}
use fuchsia_storage.Vfs.File.Connection.{SeekOrigin, start, current, end, offset_from}
use fuchsia_storage.Vfs.File.VmoFile.Kernel.{VmoCalls, VmoChildOptions, size_limit}

-- `VmoFileState::Initialized`
pub record Initialized (V : Type 0) : Type 0 where
  pub vmo : V
  pub size : ℕ
  pub vmo_size : ℕ
  pub capacity : ℕ
  pub connection_count : ℕ

pub data VmoFileState (V : Type 0) : Type 0 where
  uninitialized : VmoFileState V
  initialized : Initialized V → VmoFileState V

-- `NewVmo`, what `init_vmo` makes.
pub record NewVmo (V : Type 0) : Type 0 where
  pub vmo : V
  pub size : ℕ
  pub capacity : ℕ

-- `VmoFile` less its state and `init_vmo`.
pub record VmoFile : Type 0 where
  pub readable : Bool
  pub writable : Bool
  pub executable : Bool
  pub inode : ℕ

-- `VmoFileConnection`, by the fields that change or are tested.
pub record VmoFileConnection : Type 0 where
  pub flags : OpenFlags
  pub seek : ℕ

-- The result of a handler that may panic.
pub data Outcome (A : Type 0) : Type 0 where
  panics : Outcome A
  returns : Result A → Outcome A

-- `fio::NodeInfo`, and what `GetAttr` answers of the two sizes.
pub data NodeInfo (H : Type 0) : Type 0 where
  regular : NodeInfo H
  vmofile : H → ℕ → NodeInfo H

module _ {V : Type 0} where
  -- `update_initialized_state!`, where the state is only read.
  abbrev pub on_initialized : {A : Type 0} → VmoFileState V → A → (Initialized V → A) → A
  on_initialized uninitialized none_yet body = none_yet
  on_initialized (initialized s) none_yet body = body s

  -- The same where the body changes the state.
  abbrev pub update_initialized :
      {A : Type 0}
      → VmoFileState V
      → (Initialized V → Initialized V × Result A)
      → VmoFileState V × Result A
  update_initialized uninitialized body = (uninitialized, err internal)
  update_initialized (initialized s) body = let (s', r) = body s in (initialized s', r)

  -- `?` after a call that changes the state.
  infixl 5 ◌>>>◌
  abbrev pub ◌>>>◌ :
      {A B : Type 0}
      → Initialized V × Result A
      → (Initialized V → A → Initialized V × Result B)
      → Initialized V × Result B
  (s, err e) >>> next = (s, err e)
  (s, ok a) >>> next = next s a

  abbrev pub on_vmo : {A : Type 0} → Initialized V → V × Result A → Initialized V × Result A
  on_vmo s (v, r) = (record s { vmo = v }, r)

  -- The more of what the file holds and what it may hold.
  abbrev pub effective_capacity : Initialized V → ℕ
  effective_capacity s = max s.size s.capacity

-- `content`, cut to what there is room for.
unfoldable pub cut : ℕ → List ℕ → List ℕ
cut room content = if ltb room (length content) then take room content else content

-- `self.seek.checked_add(count).unwrap()`
unfoldable pub advance_read :
    VmoFileConnection → Result (List ℕ) → VmoFileConnection × Outcome (List ℕ)
advance_read c (err e) = (c, returns (err e))
advance_read c (ok bytes) =
    if ltb (c.seek + length bytes) (2 ^ 64)
    then (record c { seek = c.seek + length bytes }, returns (ok bytes))
    else (c, panics)

-- `self.seek += actual`
unfoldable pub advance_written :
    {V : Type 0}
    → VmoFileConnection
    → VmoFileState V × Result ℕ
    → VmoFileConnection × VmoFileState V × Result ℕ
advance_written c (state, err e) = (c, state, err e)
advance_written c (state, ok actual) =
    (record c { seek = (c.seek + actual) % 2 ^ 64 }, state, ok actual)

-- The seek position after a truncation.
unfoldable pub clamp_seek :
    {V : Type 0}
    → ℕ
    → ℕ
    → VmoFileState V × Result (Unit {0})
    → (VmoFileState V × ℕ) × Result (Unit {0})
clamp_seek seek new_size (s, err e) = ((s, seek), err e)
clamp_seek seek new_size (uninitialized, ok res) = ((uninitialized, seek), ok res)
clamp_seek seek new_size (initialized s, ok res) =
    ((initialized s, min seek (max new_size s.capacity)), ok res)

module _ {V H : Type 0} (calls : VmoCalls V H) where
  -- `vmo.set_size(size)?` and `*vmo_size = vmo.get_size()?`
  unfoldable pub resize_vmo : Initialized V → ℕ → Initialized V × Result (Unit {0})
  resize_vmo s size = on_vmo s (calls.set_size s.vmo size) >>> λ s' done.
      (s', calls.get_size s'.vmo) >>> λ s'' rounded. (record s'' { vmo_size = rounded }, ok tt)

  -- `vmo.set_content_size(&size)?` and `*size = size`
  unfoldable pub set_file_size : Initialized V → ℕ → Initialized V × Result (Unit {0})
  set_file_size s size =
      on_vmo s (calls.set_content_size s.vmo size) >>> λ s' done. (record s' { size = size }, ok tt)

  unfoldable pub truncate_initialized : Initialized V → ℕ → Initialized V × Result (Unit {0})
  unfolding resize_vmo set_file_size
  truncate_initialized s new_size =
      if ltb (effective_capacity s) new_size
      then (s, err out_of_range)
      else resize_vmo s new_size >>> λ s' done. set_file_size s' new_size

  unfoldable pub truncate_vmo : VmoFileState V → ℕ → ℕ → (VmoFileState V × ℕ) × Result (Unit {0})
  unfolding truncate_initialized clamp_seek
  truncate_vmo state new_size seek =
      clamp_seek seek new_size (update_initialized state (λ s. truncate_initialized s new_size))

  unfoldable pub read_initialized : Initialized V → ℕ → ℕ → Result (List ℕ)
  read_initialized s offset count =
      if ltb s.size offset then ok [] else calls.read s.vmo offset (min count (s.size - offset))

  unfoldable pub handle_read_at : VmoFileConnection → VmoFileState V → ℕ → ℕ → Result (List ℕ)
  unfolding read_initialized
  handle_read_at c state offset count =
      if not (intersects c.flags only_right_readable)
      then err bad_handle
      else on_initialized state (err internal) (λ s. read_initialized s offset count)

  unfoldable pub handle_read :
      VmoFileConnection → VmoFileState V → ℕ → VmoFileConnection × Outcome (List ℕ)
  unfolding handle_read_at advance_read
  handle_read c state count = advance_read c (handle_read_at c state c.seek count)

  -- The file grows up to `last` if it ends before.
  unfoldable pub extend : Initialized V → ℕ → Initialized V × Result (Unit {0})
  unfolding resize_vmo set_file_size
  extend s last =
      if ltb s.size last
      then ((if ltb s.vmo_size last then resize_vmo s last else (s, ok tt)) >>> λ s' done.
          set_file_size s' last)
      else (s, ok tt)

  unfoldable pub write_content : Initialized V → ℕ → List ℕ → Initialized V × Result ℕ
  write_content s offset content = extend s (offset + length content) >>> λ s' done.
      on_vmo s' (calls.write s'.vmo offset content) >>> λ s'' done'. (s'', ok (length content))

  unfoldable pub write_initialized : Initialized V → ℕ → List ℕ → Initialized V × Result ℕ
  write_initialized s offset content =
      if ltb (effective_capacity s) offset
      then (s, err out_of_range)
      else write_content s offset (cut (effective_capacity s - offset) content)

  unfoldable pub handle_write_at :
      VmoFileConnection → VmoFileState V → ℕ → List ℕ → VmoFileState V × Result ℕ
  unfolding write_initialized
  handle_write_at c state offset content =
      if not (intersects c.flags only_right_writable)
      then (state, err bad_handle)
      else update_initialized state (λ s. write_initialized s offset content)

  unfoldable pub handle_write :
      VmoFileConnection → VmoFileState V → List ℕ → VmoFileConnection × VmoFileState V × Result ℕ
  unfolding handle_write_at advance_written
  handle_write c state content = advance_written c (handle_write_at c state c.seek content)
