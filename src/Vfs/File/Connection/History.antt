-- ===== src/Vfs/File/Connection/History.antt =====
-- Whole histories of a file connection: src/lib/storage/vfs/rust/src/file/connection/io1.rs.
use fuchsia_storage.Shared.{ℕ, Bool, List, [], ◌∷◌, ◌≡◌, refl, ap, ◌∙◌, arith}
use fuchsia_storage.Vfs.Status.{Result, ok, err}
use fuchsia_storage.Vfs.Flags.{OpenFlags, FioConstants}
use fuchsia_storage.Vfs.File.Connection.{File, FileConnection, advance}
use fuchsia_storage.Vfs.File.Connection.Requests.{
  FileRequest, clone, reopen, close, describe, describe2, sync, get_attr, get_attributes,
  update_attributes, get_flags, advisory_lock, query_filesystem, set_attr, read, read_at,
  write_deprecated, write, write_at, seek, resize, set_flags, get_backing_memory, Event, request,
  malformed, end_of_stream, shutdown, alive, closed, dropped, panicked, ConnectionState, Reply,
  handle_request, handle_requests, end_round, drop_file, close_file,
}

-- Flags that differ at most in APPEND.
abbrev pub SameButAppend : OpenFlags → OpenFlags → Type 0
SameButAppend f g = g ≡ record f { append = g.append }

SameButAppend-trans :
    (f g h : OpenFlags) → SameButAppend f g → SameButAppend g h → SameButAppend f h
SameButAppend-trans f g h p q = q ∙ ap (λ (x : OpenFlags). record x { append = h.append }) p

module _ {F Attrs Info Fs Vmo : Type 0} (file : File F Attrs Info Fs Vmo) (max_buf : ℕ)
    (k : FioConstants) where
  advance-flags : (c : FileConnection F) (r : Result (List ℕ)) → (advance c r).0.flags ≡ c.flags
  unfolding advance
  advance-flags c (ok b) = refl
  advance-flags c (err e) = refl

  pub handle_request-flags :
      (c : FileConnection F) (req : FileRequest Attrs) (sent : Bool)
      → SameButAppend c.flags (handle_request file max_buf k c req sent).0.flags
  unfolding handle_request
  handle_request-flags c (clone flags) sent = refl
  handle_request-flags c reopen sent = refl
  handle_request-flags c close sent = ground arith
  handle_request-flags c describe sent = ground arith
  handle_request-flags c describe2 sent = refl
  handle_request-flags c sync sent = refl
  handle_request-flags c get_attr sent = refl
  handle_request-flags c get_attributes sent = refl
  handle_request-flags c update_attributes sent = refl
  handle_request-flags c get_flags sent = refl
  handle_request-flags c advisory_lock sent = refl
  handle_request-flags c query_filesystem sent = refl
  handle_request-flags c (set_attr flags attrs) sent = ground arith
  handle_request-flags c (read size) sent = ground arith
  handle_request-flags c (read_at offset size) sent = ground arith
  handle_request-flags c (write_deprecated content) sent = ground arith
  handle_request-flags c (write content) sent = ground arith
  handle_request-flags c (write_at offset content) sent = ground arith
  handle_request-flags c (seek origin offset) sent = ground arith
  handle_request-flags c (resize size) sent = ground arith
  handle_request-flags c (set_flags flags) sent = ground arith
  handle_request-flags c (get_backing_memory flags) sent = ground arith

  pub drop_file-flags : (c : FileConnection F) → (drop_file file max_buf k c).flags ≡ c.flags
  unfolding drop_file close_file
  drop_file-flags c = ground arith

  module _ (I : FileConnection F → Type 0)
      (steps : (c : FileConnection F) (req : FileRequest Attrs) (sent : Bool)
        → I c
        → I (handle_request file max_buf k c req sent).0)
      (drops : (c : FileConnection F) → I c → I (drop_file file max_buf k c)) where
    end_round-invariant :
        (state : ConnectionState) (c : FileConnection F) (reply : Reply Attrs Info Fs Vmo)
        (rest : FileConnection F × List (Reply Attrs Info Fs Vmo))
        → I c
        → I rest.0
        → I (end_round file max_buf k state c reply rest).0
    unfolding end_round
    end_round-invariant alive c reply rest h r = r
    end_round-invariant closed c reply rest h r = drops c h
    end_round-invariant dropped c reply rest h r = drops c h
    end_round-invariant panicked c reply rest h r = drops c h

    -- The rule for the loop: what every request and the end of the connection keep.
    pub handle_requests-invariant :
        (c : FileConnection F) (events : List (Event Attrs))
        → I c
        → I (handle_requests file max_buf k c events).0
    unfolding handle_requests
    handle_requests-invariant c [] h = h
    handle_requests-invariant c (request req sent ∷ events) h =
        let next = handle_request file max_buf k c req sent in
        let kept = steps c req sent h in
        end_round-invariant next.2 next.0 next.1 (handle_requests file max_buf k next.0 events) kept
          (handle_requests-invariant next.0 events kept)
    handle_requests-invariant c (malformed ∷ events) h = drops c h
    handle_requests-invariant c (end_of_stream ∷ events) h = drops c h
    handle_requests-invariant c (shutdown ∷ events) h = drops c h

  -- Over any history a connection keeps its flags, but for APPEND: no sequence of requests gives it
  -- a right that it was not opened with, takes one away, or makes it less of a node reference.
  pub handle_requests-flags :
      (c : FileConnection F) (events : List (Event Attrs))
      → SameButAppend c.flags (handle_requests file max_buf k c events).0.flags
  handle_requests-flags c events =
      handle_requests-invariant (λ x. SameButAppend c.flags x.flags)
        (λ x req sent h.
          SameButAppend-trans c.flags x.flags (handle_request file max_buf k x req sent).0.flags h
            (handle_request-flags x req sent))
        (λ x h. rw (drop_file-flags x) h) c events refl
