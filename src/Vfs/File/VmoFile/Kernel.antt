-- ===== src/Vfs/File/VmoFile/Kernel.antt =====
-- The VMO calls of src/lib/storage/vfs/rust/src/file/vmo/connection/io1.rs, which are the kernel's.
use fuchsia_storage.Shared.{ℕ, ◌^◌, ◌≤◌, ◌<◌, Bool, List, length, ◌≡◌}
use fuchsia_storage.Vfs.Status.{Status, Result, ok, err}
use fuchsia_storage.Vfs.File.Flags.Buffer.{Rights}
use fuchsia_storage.BlockClient.Memory.{Memory, fill, contents, bytes_at}

-- `zx::VmoChildOptions`
pub record VmoChildOptions : Type 0 where
  pub snapshot_at_least_on_write : Bool
  pub no_write : Bool
  pub resizable : Bool

-- `V` is a VMO with what it holds, `H` a handle that is passed on. `rights` is the rights that
-- `basic_info` tells of.
pub record VmoCalls (V H : Type 0) : Type 0 where
  pub get_size : V → Result ℕ
  pub set_size : V → ℕ → V × Result (Unit {0})
  pub set_content_size : V → ℕ → V × Result (Unit {0})
  pub read : V → ℕ → ℕ → Result (List ℕ)
  pub write : V → ℕ → List ℕ → V × Result (Unit {0})
  pub rights : V → Result Rights
  pub duplicate : V → Rights → Result H
  pub create_child : V → VmoChildOptions → ℕ → Result H
  pub replace_handle : H → Rights → Result H

-- No VMO is as large as this.
abbrev pub size_limit : ℕ
size_limit = 2 ^ 63

-- What the kernel documents of the sizes: one that is set is rounded up, and a call that fails, or
-- one that is about something else, leaves it.
pub record SizeLaws {V H : Type 0} (calls : VmoCalls V H) : Type 0 where
  pub get_size_bound : (v : V) (size : ℕ) → calls.get_size v ≡ ok size → size < size_limit
  pub set_size_ok :
      (v : V) (size : ℕ)
      → (calls.set_size v size).1 ≡ ok tt
      → (rounded : ℕ) × (calls.get_size (calls.set_size v size).0 ≡ ok rounded) × (size ≤ rounded)
  pub set_size_err :
      (v : V) (size : ℕ) (e : Status)
      → (calls.set_size v size).1 ≡ err e
      → calls.get_size (calls.set_size v size).0 ≡ calls.get_size v
  pub set_content_size_kept :
      (v : V) (size : ℕ) → calls.get_size (calls.set_content_size v size).0 ≡ calls.get_size v
  pub write_kept :
      (v : V) (offset : ℕ) (buf : List ℕ)
      → calls.get_size (calls.write v offset buf).0 ≡ calls.get_size v
  pub read_length :
      (v : V) (offset count : ℕ) (buf : List ℕ)
      → calls.read v offset count ≡ ok buf
      → length buf ≡ count

-- What the kernel documents of the bytes, where `byte v a` is the byte of `v` at `a`, and 0 past
-- its end: a VMO that grows is filled with zeroes.
pub record ByteLaws {V H : Type 0} (calls : VmoCalls V H) (byte : V → Memory) : Type 0 where
  pub read_ok :
      (v : V) (offset count : ℕ) (buf : List ℕ)
      → calls.read v offset count ≡ ok buf
      → buf ≡ bytes_at (byte v) offset count
  pub write_ok :
      (v : V) (offset : ℕ) (buf : List ℕ)
      → (calls.write v offset buf).1 ≡ ok tt
      → (a : ℕ)
      → byte (calls.write v offset buf).0 a ≡ fill (byte v) offset (length buf) (contents buf) a
  pub set_size_bytes : (v : V) (size a : ℕ) → a < size → byte (calls.set_size v size).0 a ≡ byte v a
  pub set_content_size_bytes :
      (v : V) (size a : ℕ) → byte (calls.set_content_size v size).0 a ≡ byte v a
