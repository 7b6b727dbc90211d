-- ===== src/Vfs/File/VmoFile/Tests.antt =====
-- VMO files on concrete inputs: a VMO whose size is rounded up to pages of 4096 bytes.
use fuchsia_storage.Shared.{
  ℕ, ◌+◌, ◌*◌, ◌/◌, true, false, List, [], ◌∷◌, length, ltb, leb, if◌then◌else◌, ◌≡◌, refl, arith,
  take, pos,
}
use fuchsia_storage.Vfs.Status.{Result, ok, err, out_of_range, no_resources, reject}
use fuchsia_storage.Vfs.Flags.{OpenFlags, none_set, rights, node_reference_flags, FioConstants}
use fuchsia_storage.Vfs.Common.{ModeBits}
use fuchsia_storage.Vfs.File.Connection.Requests.{request, write, malformed}
use fuchsia_storage.BlockClient.Memory.{Memory, fill, contents, bytes_at, length-bytes_at}
use fuchsia_storage.Vfs.File.Flags.{
  new_connection_validate_flags, clean, allowed_flags, prohibited_flags,
}
use fuchsia_storage.Vfs.File.Flags.Buffer.{Rights}
use fuchsia_storage.Vfs.File.VmoFile.{
  Initialized, VmoFileState, uninitialized, initialized, NewVmo, VmoFile, VmoFileConnection,
  handle_write_at, handle_write, handle_read, returns, advance_written, write_initialized,
  write_content, cut, extend, set_file_size, resize_vmo, handle_read_at, read_initialized,
}
use fuchsia_storage.Vfs.File.VmoFile.Requests.{handle_request, handle_close, handle_seek}
use fuchsia_storage.Vfs.File.VmoFile.Valid.{IsSized}
use fuchsia_storage.Vfs.File.Connection.{start}
use fuchsia_storage.Vfs.File.VmoFile.Open.{
  Opened, connected, ServerEnd, Served, create_connection, create_validated, truncate_new, connect,
  ensure_vmo, init_sized, handle_event, end_round,
}
use fuchsia_storage.Vfs.File.VmoFile.System.{
  System, Step, open_connected, served, closes, Reach, here, next, new_file,
}
use fuchsia_storage.Vfs.File.VmoFile.Counted.{IsConsistent, Reach-IsConsistent}
use fuchsia_storage.Vfs.File.VmoFile.Bytes.{Wrote}
use fuchsia_storage.Vfs.File.VmoFile.Contract.{
  handle_read-handle_seek, handle_write_at_refines, handle_read_at-handle_write_at, ReachesWithin,
  Reach-ReachesWithin,
}
use fuchsia_storage.Vfs.File.VmoFile.Kernel.{VmoCalls, SizeLaws, ByteLaws, size_limit}

-- `written` counts below `size`.
record Pages : Type 0 where
  size : ℕ
  written : Memory

abbrev byte : Pages → Memory
byte v a = if ltb a v.size then v.written a else 0

abbrev pages_of : ℕ → ℕ
pages_of size = (size + 4095) / 4096 * 4096

abbrev all_rights : Rights
all_rights = record {
  read = true;
  write = true;
  execute = true;
  basic = true;
  map = true;
  get_property = true;
  set_property = true;
}

abbrev pages : VmoCalls Pages Rights
pages = record {
  get_size = λ v. if ltb v.size size_limit then ok v.size else err no_resources;
  set_size = λ v size.
      if ltb (pages_of size) size_limit
      then (
        record { size = pages_of size; written = λ a. if ltb a size then byte v a else 0 },
        ok tt,
      )
      else (v, err no_resources);
  set_content_size = λ v size. (v, ok tt);
  read = λ v offset count.
      if leb (offset + count) v.size then ok (bytes_at (byte v) offset count) else err out_of_range;
  write = λ v offset buf.
      if leb (offset + length buf) v.size
      then (record v { written = fill v.written offset (length buf) (contents buf) }, ok tt)
      else (v, err out_of_range);
  rights = λ v. ok all_rights;
  duplicate = λ v r. ok r;
  create_child = λ v options size. ok all_rights;
  replace_handle = λ h r. ok r;
}

pages-SizeLaws : SizeLaws pages
pages-SizeLaws = record {
  get_size_bound = λ v size h. ground arith;
  set_size_ok = λ v size h. (pages_of size, ground arith, ground arith);
  set_size_err = λ v size e h. ground arith;
  set_content_size_kept = λ v size. refl;
  write_kept = λ v offset buf. ground arith;
  read_length = λ v offset count buf h. ground (arith, length-bytes_at (byte v) offset count);
}

pages-ByteLaws : ByteLaws pages byte
pages-ByteLaws = record {
  read_ok = λ v offset count buf h. ground arith;
  write_ok = λ v offset buf h a. ground arith;
  set_size_bytes = λ v size a h. ground arith;
  set_content_size_bytes = λ v size a. refl;
}

abbrev constants : FioConstants
constants = record {
  open_rights = rights;
  allowed_with_node_reference = node_reference_flags;
  mode_type_mask = 0xF000;
  mode_type_directory = 0x4000;
}

abbrev mode_bits : ModeBits
mode_bits = record { read_bit = 0x100; write_bit = 0x80; execute_bit = 0x40 }

abbrev file : VmoFile
file = record { readable = true; writable = true; executable = false; inode = 7 }

abbrev read_write : OpenFlags
read_write = record none_set { right_readable = true; right_writable = true }

abbrev client : ServerEnd
client = record { into_stream = true; on_open_sent = true }

-- Three bytes in a VMO of a page, for a file that may grow to ten.
abbrev three_bytes : Pages
three_bytes = record { size = 4096; written = contents (1 ∷ 2 ∷ 3 ∷ []) }

abbrev new_vmo : NewVmo Pages
new_vmo = record { vmo = three_bytes; size = 3; capacity = 10 }

abbrev opened : VmoFileState Pages × Opened
opened = create_connection pages constants file read_write client (ok new_vmo) uninitialized

abbrev fresh : VmoFileConnection
fresh = record { flags = read_write; seek = 0 }

abbrev counted : Initialized Pages
counted = record {
  vmo = three_bytes;
  size = 3;
  vmo_size = 4096;
  capacity = 10;
  connection_count = 1;
}

create_connection-counted : opened ≡ (initialized counted, connected fresh)
unfolding create_connection create_validated new_connection_validate_flags clean allowed_flags
    prohibited_flags truncate_new connect ensure_vmo init_sized reject
create_connection-counted = refl

abbrev FileStep : System Pages → System Pages → Type 0
FileStep = Step pages constants mode_bits 0x8000 file

abbrev FileReach : System Pages → System Pages → Type 0
FileReach = Reach pages constants mode_bits 0x8000 file

abbrev one_open : System Pages
one_open = record { state = initialized counted; live = fresh ∷ []; leaked = 0 }

reach_open : FileReach new_file one_open
reach_open = next here (
    open_connected read_write client (ok new_vmo) (initialized counted) fresh
      create_connection-counted)

abbrev written : VmoFileState Pages × Served
written =
    handle_event pages constants file mode_bits 0x8000 fresh (initialized counted)
      (request (write (7 ∷ 8 ∷ 9 ∷ 10 ∷ [])) true)

abbrev after_write : VmoFileConnection
after_write = record { flags = read_write; seek = 4 }

abbrev one_written : System Pages
one_written = record { state = written.0; live = after_write ∷ []; leaked = 0 }

reach_written : FileReach new_file one_written
unfolding handle_event handle_request handle_write handle_write_at advance_written write_initialized
    write_content cut extend set_file_size resize_vmo end_round
reach_written = next reach_open (
    served [] [] fresh after_write (request (write (7 ∷ 8 ∷ 9 ∷ 10 ∷ [])) true) written.0 refl refl)

abbrev end_of_client : VmoFileState Pages × Served
end_of_client = handle_event pages constants file mode_bits 0x8000 after_write written.0 malformed

abbrev none_open : System Pages
none_open = record { state = end_of_client.0; live = []; leaked = 0 }

reach_closed : FileReach new_file none_open
unfolding handle_event handle_request handle_write handle_write_at advance_written write_initialized
    write_content cut extend set_file_size resize_vmo end_round handle_close
reach_closed = next reach_written (closes [] [] after_write malformed end_of_client.0 refl refl)

Reach-IsConsistent_example : IsConsistent pages pages-SizeLaws none_open.state [] 0
Reach-IsConsistent_example =
    Reach-IsConsistent pages pages-SizeLaws constants mode_bits 0x8000 file reach_closed

step_written : FileReach one_open one_written
unfolding handle_event handle_request handle_write handle_write_at advance_written write_initialized
    write_content cut extend set_file_size resize_vmo end_round
step_written = next here (
    served [] [] fresh after_write (request (write (7 ∷ 8 ∷ 9 ∷ 10 ∷ [])) true) written.0 refl refl)

Reach-ReachesWithin_example : ReachesWithin pages pages-SizeLaws counted written.0
Reach-ReachesWithin_example =
    Reach-ReachesWithin pages pages-SizeLaws constants mode_bits 0x8000 file counted step_written
      (Reach-IsConsistent pages pages-SizeLaws constants mode_bits 0x8000 file reach_open) refl

-- A write past the end of the file, which grows.
abbrev sparse : VmoFileState Pages × Result ℕ
sparse = handle_write_at pages fresh (initialized counted) 5 (7 ∷ 8 ∷ [])

abbrev grown_file : Initialized Pages
grown_file = record {
  vmo = record {
    size = 4096;
    written = fill (contents (1 ∷ 2 ∷ 3 ∷ [])) 5 2 (contents (7 ∷ 8 ∷ []));
  };
  size = 7;
  vmo_size = 4096;
  capacity = 10;
  connection_count = 1;
}

sparse-grown : sparse ≡ (initialized grown_file, ok 2)
unfolding handle_write_at write_initialized write_content cut extend set_file_size resize_vmo
sparse-grown = refl

handle_write_at_refines_example :
    Wrote pages byte pages-ByteLaws counted grown_file 5 (7 ∷ 8 ∷ []) 2
handle_write_at_refines_example =
    handle_write_at_refines pages byte pages-ByteLaws fresh counted grown_file 5 2 (7 ∷ 8 ∷ [])
      sparse-grown

read-sparse : handle_read_at pages fresh (initialized grown_file) 5 2 ≡ ok (7 ∷ 8 ∷ [])
unfolding handle_read_at read_initialized bytes_at
read-sparse = refl

handle_read_at-handle_write_at_example : ◌≡◌ {A = List ℕ} (7 ∷ 8 ∷ []) (take 2 (7 ∷ 8 ∷ []))
handle_read_at-handle_write_at_example =
    handle_read_at-handle_write_at pages byte pages-ByteLaws fresh fresh counted grown_file 5 2
      (7 ∷ 8 ∷ []) (7 ∷ 8 ∷ []) sparse-grown read-sparse

grown_file-IsSized : IsSized pages pages-SizeLaws grown_file
grown_file-IsSized = record { known = refl; short = omega arith }

handle_read-handle_seek_example :
    (handle_read pages
      (handle_seek pages fresh (initialized grown_file) start (pos 5)).0
      (initialized grown_file)
      2).1
    ≡ returns (handle_read_at pages fresh (initialized grown_file) 5 2)
handle_read-handle_seek_example =
    handle_read-handle_seek pages pages-SizeLaws fresh grown_file 5 2 grown_file-IsSized refl
      (omega arith)
