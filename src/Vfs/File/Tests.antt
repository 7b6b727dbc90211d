-- ===== src/Vfs/File/Tests.antt =====
-- Tests of src/lib/storage/vfs/rust/src/file.
use fuchsia_storage.Shared.{
  ℕ, ◌+◌, ◌≡◌, refl, true, false, List, [], ◌∷◌, ◌++◌, take, drop, length, arith, pos, negsuc,
}
use fuchsia_storage.Vfs.Status.{ok, err, bad_handle, out_of_range, reject}
use fuchsia_storage.Vfs.Flags.{
  OpenFlags, ◌∪◌, only_right_readable, only_right_writable, only_append, only_truncate,
  FioConstants, rights, node_reference_flags,
}
use fuchsia_storage.Vfs.File.Flags.{clean, prohibited_flags, allowed_flags}
use fuchsia_storage.Vfs.File.Flags.Bounds.{IsAccepted}
use fuchsia_storage.Vfs.File.Connection.{
  File, FileConnection, current, end, handle_read, handle_seek,
}
use fuchsia_storage.Vfs.File.Connection.Requests.{
  read, write, seek, resize, set_flags, close, Event, request, bytes, count, status,
  handle_requests, create_connection,
}
use fuchsia_storage.Vfs.File.Connection.History.{SameButAppend, handle_requests-flags}
use fuchsia_storage.Vfs.File.Connection.ReadOnly.{ReadsKeep, handle_requests_unwritten}
use fuchsia_storage.Vfs.File.Connection.Laws.{
  handle_read_twice, handle_seek_wraps, create_connection-IsAccepted,
}

-- A file that is its content.
abbrev bytes_file : File (List ℕ) ℕ ℕ ℕ ℕ
bytes_file = record {
  open_file = λ f flags. (f, ok tt);
  read_at = λ f offset size. (f, ok (take size (drop offset f)));
  write_at = λ f offset content.
      (take offset f ++ (content ++ drop (offset + length content) f), ok (length content));
  append = λ f content. (f ++ content, ok (length content, length f + length content));
  truncate = λ f size. (take size f, ok tt);
  get_buffer = λ f flags. (f, ok 0);
  get_size = λ f. (f, ok (length f));
  get_attrs = λ f. (f, ok 0);
  set_attrs = λ f flags attrs. (f, ok tt);
  sync = λ f. (f, ok tt);
  close = λ f. (f, ok tt);
  describe = λ f flags. ok 0;
  query_filesystem = λ f. ok 0;
}

abbrev constants : FioConstants
constants = record {
  open_rights = rights;
  allowed_with_node_reference = node_reference_flags;
  mode_type_mask = 0xFF000;
  mode_type_directory = 0x4000;
}

abbrev reader : FileConnection (List ℕ)
reader = record {
  file = 10 ∷ 20 ∷ 30 ∷ 40 ∷ [];
  is_open = true;
  flags = only_right_readable;
  seek = 1;
}

abbrev writer : FileConnection (List ℕ)
writer = record reader { flags = (only_right_readable ∪ only_right_writable) ∪ only_append }

abbrev history : List (Event ℕ)
history =
    request (read 2) true
    ∷ request (write (7 ∷ [])) true
    ∷ request (set_flags only_append) true
    ∷ request (resize 0) true
    ∷ request (seek end (negsuc 0)) true
    ∷ request (read 9) true
    ∷ request close true
    ∷ []

-- Without the right to write the file stays as it is.
read_history :
    (handle_requests bytes_file 8 constants reader history).1
    ≡ bytes (ok (20 ∷ 30 ∷ []))
      ∷ count (err bad_handle)
      ∷ status (ok tt)
      ∷ status (err bad_handle)
      ∷ count (ok 3)
      ∷ bytes (err out_of_range)
      ∷ status (ok tt)
      ∷ []
unfolding handle_requests
read_history = refl

-- With it and APPEND the byte is written to the end, and the position is behind it.
write_history :
    (handle_requests bytes_file 8 constants writer
      (request (write (7 ∷ [])) true ∷ request (seek current (pos 0)) true ∷ [])).1
    ≡ count (ok 1) ∷ count (ok 5) ∷ []
unfolding handle_requests
write_history = refl

bytes_file-ReadsKeep : ReadsKeep bytes_file (λ f. f ≡ 10 ∷ 20 ∷ 30 ∷ 40 ∷ [])
bytes_file-ReadsKeep = record {
  of_read_at = λ f offset size h. h;
  of_get_buffer = λ f flags w h. h;
  of_get_size = λ f h. h;
  of_get_attrs = λ f h. h;
  of_sync = λ f h. h;
  of_close = λ f h. h;
}

handle_requests_unwritten_example :
    (handle_requests bytes_file 8 constants reader history).0.file ≡ 10 ∷ 20 ∷ 30 ∷ 40 ∷ []
handle_requests_unwritten_example =
    handle_requests_unwritten bytes_file 8 constants (λ f. f ≡ 10 ∷ 20 ∷ 30 ∷ 40 ∷ [])
      bytes_file-ReadsKeep reader history refl refl

handle_requests-flags_example :
    SameButAppend only_right_readable
      (handle_requests bytes_file 8 constants reader history).0.flags
handle_requests-flags_example = handle_requests-flags bytes_file 8 constants reader history

handle_read_twice_example :
    ((handle_read bytes_file 8 (handle_read bytes_file 8 reader 2).0 3).0
      ≡ (handle_read bytes_file 8 reader 5).0)
    × (ok (20 ∷ 30 ∷ 40 ∷ []) ≡ (handle_read bytes_file 8 reader 5).1)
unfolding handle_read
handle_read_twice_example =
    handle_read_twice bytes_file 8 reader (10 ∷ 20 ∷ 30 ∷ 40 ∷ []) 2 3 (λ offset size. refl) refl
      (omega arith) (omega arith)

abbrev far : FileConnection (List ℕ)
far = record reader { seek = 18446744073709551615 }

handle_seek_wraps_example :
    ((handle_seek bytes_file 8 far current (pos 5)).1 ≡ ok 4)
    × ((handle_seek bytes_file 8 far current (pos 5)).0.seek ≡ 4)
handle_seek_wraps_example =
    handle_seek_wraps bytes_file 8 far current (pos 5) 18446744073709551615 refl refl
      18446744073709551620 refl (omega arith) (omega arith)

abbrev truncating : OpenFlags
truncating = only_right_writable ∪ only_truncate

abbrev truncated_writer : FileConnection (List ℕ)
truncated_writer = record { file = []; is_open = true; flags = truncating; seek = 0 }

truncates :
    create_connection bytes_file 8 constants (1 ∷ 2 ∷ []) truncating true true false
    ≡ ([], ok truncated_writer)
unfolding create_connection reject clean prohibited_flags allowed_flags
truncates = refl

create_connection-IsAccepted_example : IsAccepted truncating truncating true true false true
create_connection-IsAccepted_example =
    (create_connection-IsAccepted bytes_file 8 constants (1 ∷ 2 ∷ []) [] truncating true true false
      truncated_writer truncates).0
