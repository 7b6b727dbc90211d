-- ===== src/Vfs/File/Connection/ReadOnly.antt =====
-- Connections without the right to write: src/lib/storage/vfs/rust/src/file/connection/io1.rs.
use fuchsia_storage.Shared.{
  ℕ, Bool, true, false, not, List, ◌≡◌, refl, ap, ◌∙◌, arith, ℤ, Bool-cases, Option-cases, ltb, inl,
  inr,
}
use fuchsia_storage.Vfs.Status.{Result, ok, err}
use fuchsia_storage.Vfs.Flags.{
  OpenFlags, intersects, only_right_readable, only_right_writable, only_node_reference,
  FioConstants,
}
use fuchsia_storage.Vfs.File.Flags.Buffer.{
  VmoFlags, get_buffer_validate_flags, get_buffer_iff, vmo_flags_to_rights,
}
use fuchsia_storage.Vfs.File.Connection.{
  File, FileConnection, SeekOrigin, start, current, end, handle_read_at, handle_read,
  handle_write_at, handle_write, handle_seek, handle_set_attr, handle_truncate, handle_get_buffer,
  advance, set_seek, seek_from_end, buffer_of, offset_from,
}
use fuchsia_storage.Vfs.File.Connection.Requests.{
  FileRequest, clone, reopen, close, describe, describe2, sync, get_attr, get_attributes,
  update_attributes, get_flags, advisory_lock, query_filesystem, set_attr, read, read_at,
  write_deprecated, write, write_at, seek, resize, set_flags, get_backing_memory, Event,
  handle_request, handle_requests, drop_file, close_file, respond_described,
}
use fuchsia_storage.Vfs.File.Connection.History.{
  SameButAppend, handle_request-flags, drop_file-flags, handle_requests-invariant,
}

-- What the calls that do not write keep of a file: `get_buffer` is one without `VmoFlags::WRITE`.
pub record ReadsKeep {F Attrs Info Fs Vmo : Type 0} (file : File F Attrs Info Fs Vmo)
    (P : F → Type 0) : Type 0 where
  pub of_read_at : (f : F) (offset size : ℕ) → P f → P (file.read_at f offset size).0
  pub of_get_buffer :
      (f : F) (flags : VmoFlags) → flags.write ≡ false → P f → P (file.get_buffer f flags).0
  pub of_get_size : (f : F) → P f → P (file.get_size f).0
  pub of_get_attrs : (f : F) → P f → P (file.get_attrs f).0
  pub of_sync : (f : F) → P f → P (file.sync f).0
  pub of_close : (f : F) → P f → P (file.close f).0

buffer_write :
    (v : VmoFlags) (f : OpenFlags)
    → f.right_writable ≡ false
    → get_buffer_validate_flags v f ≡ ok tt
    → v.write ≡ false
unfolding vmo_flags_to_rights
buffer_write v f h e =
    let permits = ((get_buffer_iff v f).0 e).1 in
    elim (Bool-cases v.write) [
      | inl w ↦ let t : f.right_writable ≡ true = permits.writable (ground arith) in cc
      | inr w ↦ w
    ]

module _ {F Attrs Info Fs Vmo : Type 0} (file : File F Attrs Info Fs Vmo) (max_buf : ℕ)
    (k : FioConstants) (P : F → Type 0) (keep : ReadsKeep file P) where
  abbrev Unwritten : FileConnection F → Type 0
  Unwritten c = (c.flags.right_writable ≡ false) × P c.file

  advance-file : (c : FileConnection F) (r : Result (List ℕ)) → P c.file → P (advance c r).0.file
  unfolding advance
  advance-file c (ok b) h = h
  advance-file c (err e) h = h

  set_seek-file :
      (c : FileConnection F) (base : ℕ) (offset : ℤ)
      → P c.file
      → P (set_seek c (offset_from base offset)).0.file
  unfolding set_seek
  set_seek-file c base offset h = elim (Option-cases (offset_from base offset)) [
    | inl e ↦ rw (e, set_seek) h
    | inr (x, e) ↦ rw (e, set_seek) h
  ]

  seek_from_end-file :
      (c : FileConnection F) (offset : ℤ) (r : Result ℕ)
      → P c.file
      → P (seek_from_end c offset r).0.file
  unfolding seek_from_end
  seek_from_end-file c offset (ok size) h = set_seek-file c size offset h
  seek_from_end-file c offset (err e) h = h

  handle_read_at-file :
      (c : FileConnection F) (offset size : ℕ)
      → P c.file
      → P (handle_read_at file max_buf c offset size).0.file
  unfolding handle_read_at
  handle_read_at-file c offset size h =
      elim (Bool-cases (not (intersects c.flags only_right_readable))) [
        | inl e ↦ rw e h
        | inr e ↦ rw e (elim (Bool-cases (ltb max_buf size)) [
          | inl l ↦ rw l h
          | inr l ↦ rw l (keep.of_read_at c.file offset size h)
        ])
      ]

  handle_seek-file :
      (c : FileConnection F) (origin : SeekOrigin) (offset : ℤ)
      → P c.file
      → P (handle_seek file max_buf c origin offset).0.file
  unfolding handle_seek
  handle_seek-file c start offset h = elim (Bool-cases (intersects c.flags only_node_reference)) [
    | inl e ↦ rw e h
    | inr e ↦ rw e (set_seek-file c 0 offset h)
  ]
  handle_seek-file c current offset h = elim (Bool-cases (intersects c.flags only_node_reference)) [
    | inl e ↦ rw e h
    | inr e ↦ rw e (set_seek-file c c.seek offset h)
  ]
  handle_seek-file c end offset h = elim (Bool-cases (intersects c.flags only_node_reference)) [
    | inl e ↦ rw e h
    | inr e ↦
        let asked = file.get_size c.file in
        rw e (
          seek_from_end-file (record c { file = asked.0 }) offset asked.1
            (keep.of_get_size c.file h))
  ]

  handle_get_buffer-file :
      (c : FileConnection F) (flags : VmoFlags)
      → c.flags.right_writable ≡ false
      → P c.file
      → P (handle_get_buffer file max_buf c flags).0.file
  unfolding handle_get_buffer
  handle_get_buffer-file c flags ro h =
      asked (get_buffer_validate_flags flags c.flags) (λ e. buffer_write flags c.flags ro e)
    where
      asked :
          (r : Result (Unit {0}))
          → (r ≡ ok tt → flags.write ≡ false)
          → P (buffer_of file max_buf c flags r).0.file
      asked (err e) w = h
      asked (ok u) w = keep.of_get_buffer c.file flags (w refl) h

  close_file-file : (c : FileConnection F) → P c.file → P (close_file file max_buf k c).0.file
  unfolding close_file
  close_file-file c h = elim (Bool-cases c.is_open) [
    | inl e ↦ simp e (keep.of_close c.file h)
    | inr e ↦ simp e h
  ]

  refused :
      (c : FileConnection F)
      → c.flags.right_writable ≡ false
      → not (intersects c.flags only_right_writable) ≡ true
  refused c ro = ground arith

  handle_request-Unwritten :
      (c : FileConnection F) (req : FileRequest Attrs) (sent : Bool)
      → c.flags.right_writable ≡ false
      → P c.file
      → P (handle_request file max_buf k c req sent).0.file
  unfolding handle_request handle_write handle_write_at handle_set_attr handle_truncate handle_read
  handle_request-Unwritten c (clone flags) sent ro h = h
  handle_request-Unwritten c reopen sent ro h = h
  handle_request-Unwritten c close sent ro h = close_file-file c h
  handle_request-Unwritten c describe sent ro h = described (file.describe c.file c.flags)
    where
      described : (r : Result Info) → P (respond_described file max_buf k c sent r).0.file
      described (ok info) = h
      described (err e) = h
  handle_request-Unwritten c describe2 sent ro h = h
  handle_request-Unwritten c sync sent ro h = keep.of_sync c.file h
  handle_request-Unwritten c get_attr sent ro h = keep.of_get_attrs c.file h
  handle_request-Unwritten c get_attributes sent ro h = h
  handle_request-Unwritten c update_attributes sent ro h = h
  handle_request-Unwritten c get_flags sent ro h = h
  handle_request-Unwritten c advisory_lock sent ro h = h
  handle_request-Unwritten c query_filesystem sent ro h = h
  handle_request-Unwritten c (set_attr flags attrs) sent ro h = rw (refused c ro) h
  handle_request-Unwritten c (read size) sent ro h =
      let r = handle_read_at file max_buf c c.seek size in
      advance-file r.0 r.1 (handle_read_at-file c c.seek size h)
  handle_request-Unwritten c (read_at offset size) sent ro h = handle_read_at-file c offset size h
  handle_request-Unwritten c (write_deprecated content) sent ro h = rw (refused c ro) h
  handle_request-Unwritten c (write content) sent ro h = rw (refused c ro) h
  handle_request-Unwritten c (write_at offset content) sent ro h = rw (refused c ro) h
  handle_request-Unwritten c (seek origin offset) sent ro h = handle_seek-file c origin offset h
  handle_request-Unwritten c (resize size) sent ro h = rw (refused c ro) h
  handle_request-Unwritten c (set_flags flags) sent ro h = h
  handle_request-Unwritten c (get_backing_memory flags) sent ro h =
      handle_get_buffer-file c flags ro h

  drop_file-file : (c : FileConnection F) → P c.file → P (drop_file file max_buf k c).file
  unfolding drop_file
  drop_file-file c h = elim (Bool-cases c.is_open) [
    | inl e ↦ simp e (keep.of_close c.file h)
    | inr e ↦ simp e h
  ]

  still_read_only :
      (f g : OpenFlags) → SameButAppend f g → f.right_writable ≡ false → g.right_writable ≡ false
  still_read_only f g h ro = ap (λ (x : OpenFlags). x.right_writable) h ∙ ro

  -- Whatever the calls that do not write keep of a file, a connection without RIGHT_WRITABLE keeps
  -- over any history of requests, SetFlags and GetBackingMemory among them: none of them reaches
  -- `write_at`, `append`, `truncate` or `set_attrs`, or asks for a VMO that can be written.
  pub handle_requests_unwritten :
      (c : FileConnection F) (events : List (Event Attrs))
      → c.flags.right_writable ≡ false
      → P c.file
      → P (handle_requests file max_buf k c events).0.file
  handle_requests_unwritten c events ro h =
      (handle_requests-invariant file max_buf k Unwritten
        (λ x req sent q. (
          still_read_only x.flags (handle_request file max_buf k x req sent).0.flags
              (handle_request-flags file max_buf k x req sent) q.0,
          handle_request-Unwritten x req sent q.0 q.1,
        ))
        (λ x q. (
          ap (λ (y : OpenFlags). y.right_writable) (drop_file-flags file max_buf k x) ∙ q.0,
          drop_file-file x q.1,
        ))
        c events (ro, h)).1
