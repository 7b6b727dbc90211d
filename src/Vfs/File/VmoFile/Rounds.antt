-- ===== src/Vfs/File/VmoFile/Rounds.antt =====
-- What a round of a connection to a VMO file keeps:
-- src/lib/storage/vfs/rust/src/file/vmo/connection/io1.rs.
use fuchsia_storage.Shared.{
  ℕ, ◌+◌, ◌-◌, ◌^◌, ◌%◌, ◌<◌, Bool, not, ◌&&◌, ap, refl, arith, Bool-cases, inl, inr,
}
use fuchsia_storage.Vfs.Status.{Result, ok, err}
use fuchsia_storage.Vfs.Flags.{FioConstants, intersects, only_right_writable}
use fuchsia_storage.Vfs.Common.{ModeBits}
use fuchsia_storage.Vfs.File.Flags.Buffer.{VmoFlags, get_buffer_validate_flags}
use fuchsia_storage.Vfs.File.Connection.Requests.{
  FileRequest, clone, reopen, close, describe, describe2, get_attributes, update_attributes, read,
  write_deprecated, write, write_at, seek, resize, get_backing_memory, ConnectionState, alive,
  closed, dropped, panicked, Reply, Event, request, malformed, end_of_stream, shutdown,
}
use fuchsia_storage.Vfs.File.VmoFile.Kernel.{VmoCalls, SizeLaws, size_limit}
use fuchsia_storage.Vfs.File.VmoFile.{
  Initialized, VmoFileState, uninitialized, initialized, VmoFile, VmoFileConnection, Outcome,
  panics, returns, NodeInfo, handle_read, handle_write_at, handle_write, truncate_initialized,
  truncate_vmo, clamp_seek,
}
use fuchsia_storage.Vfs.File.VmoFile.Requests.{
  NodeAttributes, VmoReply, handle_seek, handle_close, handle_truncate, buffer_of, buffer_checked,
  get_node_info, respond_outcome, respond_described, handle_request,
}
use fuchsia_storage.Vfs.File.VmoFile.Open.{ended, end_round, handle_event}
use fuchsia_storage.Vfs.File.VmoFile.Valid.{IsSized, Keeps, Keeps-refl, truncate_initialized-Keeps}
use fuchsia_storage.Vfs.File.VmoFile.Handlers.{
  uncounted, KeepsFile, Handles, KeepsRound, Handles-sent, handle_read-within, handle_seek-within,
  handle_write_at-Keeps, handle_write-Keeps,
}

module _ {V H : Type 0} (calls : VmoCalls V H) (laws : SizeLaws calls) where
  handle_truncate-Keeps :
      (c : VmoFileConnection) (s : Initialized V) (size : ℕ)
      → IsSized calls laws s
      → c.seek < size_limit
      → KeepsFile calls laws s
          (handle_truncate calls c (initialized s) size).0
          (handle_truncate calls c (initialized s) size).1
  unfolding handle_truncate truncate_vmo
  handle_truncate-Keeps c s size v lt =
      elim (Bool-cases (not (intersects c.flags only_right_writable))) [
        | inl e ↦ rw e (Keeps-refl calls laws s v, lt)
        | inr e ↦
            let cut = truncate_initialized calls s size in
            rw e (clamped cut.0 cut.1 (truncate_initialized-Keeps calls laws s size v))
      ]
    where
      clamped :
          (t : Initialized V) (r : Result (Unit {0}))
          → Keeps calls laws s t
          → KeepsFile calls laws s
              (record c { seek = (clamp_seek c.seek size (initialized t, r)).0.1 })
              (clamp_seek c.seek size (initialized t, r)).0.0
      clamped t (err e) k = (k, lt)
      clamped t (ok res) k = (k, omega arith)

  buffer_of-Keeps :
      (flags : VmoFlags) (s : Initialized V)
      → IsSized calls laws s
      → Keeps calls laws s (buffer_of calls flags s).0
  unfolding buffer_of
  buffer_of-Keeps flags s v = record {
    sized = record {
      known = rw (laws.set_content_size_kept s.vmo s.size) v.known;
      short = v.short;
    };
    capacity_kept = refl;
    count_kept = refl;
    reach = omega arith;
  }

  buffer_checked-Keeps :
      (c : VmoFileConnection) (flags : VmoFlags) (s : Initialized V) (r : Result (Unit {0}))
      → IsSized calls laws s
      → c.seek < size_limit
      → KeepsFile calls laws s c (buffer_checked calls (initialized s) flags r).0
  unfolding buffer_checked
  buffer_checked-Keeps c flags s (err e) v lt = (Keeps-refl calls laws s v, lt)
  buffer_checked-Keeps c flags s (ok valid) v lt =
      elim (Bool-cases (flags.write && not flags.private_clone)) [
        | inl e ↦ rw e (Keeps-refl calls laws s v, lt)
        | inr e ↦ rw e (elim (Bool-cases (flags.execute && flags.write)) [
          | inl x ↦ rw x (Keeps-refl calls laws s v, lt)
          | inr x ↦ rw x (buffer_of-Keeps flags s v, lt)
        ])
      ]

  module _ (k : FioConstants) (bits : ModeBits) (mode_type_file : ℕ) (file : VmoFile) where
    handled_outcome :
        {A : Type 0} (kind : Result A → VmoReply H) (sent : Bool) (s : Initialized V)
        (c : VmoFileConnection) (r : Outcome A)
        → IsSized calls laws s
        → c.seek < size_limit
        → Handles calls laws s
            (respond_outcome calls k bits mode_type_file file kind sent (initialized s) (c, r)).0.0
            (respond_outcome calls k bits mode_type_file file kind sent (initialized s) (c, r)).0.1
            (respond_outcome calls k bits mode_type_file file kind sent (initialized s) (c, r)).2
    unfolding respond_outcome
    handled_outcome kind sent s c panics v lt = (Keeps-refl calls laws s v, lt)
    handled_outcome kind sent s c (returns r) v lt =
        Handles-sent calls laws s c (initialized s) sent (Keeps-refl calls laws s v, lt)

    handled_description :
        (sent : Bool) (s : Initialized V) (c : VmoFileConnection) (r : Outcome (NodeInfo H))
        → IsSized calls laws s
        → c.seek < size_limit
        → Handles calls laws s
            (respond_described calls k bits mode_type_file file sent c (initialized s) r).0.0
            (respond_described calls k bits mode_type_file file sent c (initialized s) r).0.1
            (respond_described calls k bits mode_type_file file sent c (initialized s) r).2
    unfolding respond_described
    handled_description sent s c panics v lt = (Keeps-refl calls laws s v, lt)
    handled_description sent s c (returns (err e)) v lt = (Keeps-refl calls laws s v, lt)
    handled_description sent s c (returns (ok info)) v lt =
        Handles-sent calls laws s c (initialized s) sent (Keeps-refl calls laws s v, lt)

    abbrev after :
        VmoFileConnection
        → Initialized V
        → FileRequest NodeAttributes
        → Bool
        → (VmoFileConnection × VmoFileState V) × VmoReply H × ConnectionState
    after c s req sent = handle_request calls k bits mode_type_file file c (initialized s) req sent

    handle_request-Handles :
        (c : VmoFileConnection) (s : Initialized V) (req : FileRequest NodeAttributes) (sent : Bool)
        → IsSized calls laws s
        → c.seek < size_limit
        → Handles calls laws s
            (after c s req sent).0.0
            (after c s req sent).0.1
            (after c s req sent).2
    unfolding handle_request
    handle_request-Handles c s (clone flags) sent v lt = (Keeps-refl calls laws s v, lt)
    handle_request-Handles c s reopen sent v lt = (Keeps-refl calls laws s v, lt)
    handle_request-Handles c s close sent v lt =
        (Keeps-refl calls laws (uncounted s) (record { known = v.known; short = v.short }), lt)
    handle_request-Handles c s describe sent v lt =
        handled_description sent s c (get_node_info calls c.flags (initialized s)) v lt
    handle_request-Handles c s describe2 sent v lt = (Keeps-refl calls laws s v, lt)
    handle_request-Handles c s (read size) sent v lt =
        let r = handle_read calls c (initialized s) size in
        handled_outcome Reply.bytes sent s r.0 r.1 v
          (handle_read-within calls laws c s size lt v.short).0
    handle_request-Handles c s (write content) sent v lt =
        let r = handle_write calls c (initialized s) content in
        Handles-sent calls laws s r.0 r.1 sent (handle_write-Keeps calls laws c s content v lt)
    handle_request-Handles c s (write_deprecated content) sent v lt =
        let r = handle_write calls c (initialized s) content in
        Handles-sent calls laws s r.0 r.1 sent (handle_write-Keeps calls laws c s content v lt)
    handle_request-Handles c s (write_at offset content) sent v lt =
        Handles-sent calls laws s c (handle_write_at calls c (initialized s) offset content).0 sent
          (handle_write_at-Keeps calls laws c s offset content v lt)
    handle_request-Handles c s (seek origin offset) sent v lt =
        let r = handle_seek calls c (initialized s) origin offset in
        handled_outcome Reply.count sent s r.0 r.1 v
          (handle_seek-within calls laws c s origin offset lt v.short).0
    handle_request-Handles c s (resize size) sent v lt =
        let r = handle_truncate calls c (initialized s) size in
        Handles-sent calls laws s r.0 r.1 sent (handle_truncate-Keeps c s size v lt)
    handle_request-Handles c s (get_backing_memory flags) sent v lt =
        let valid = get_buffer_validate_flags flags c.flags in
        Handles-sent calls laws s c (buffer_checked calls (initialized s) flags valid).0 sent
          (buffer_checked-Keeps c flags s valid v lt)
    handle_request-Handles c s get_attributes sent v lt = (Keeps-refl calls laws s v, lt)
    handle_request-Handles c s update_attributes sent v lt = (Keeps-refl calls laws s v, lt)
    handle_request-Handles c s other sent v lt =
        Handles-sent calls laws s c (initialized s) sent (Keeps-refl calls laws s v, lt)

    handle_close-Keeps :
        (c : VmoFileConnection) (s : Initialized V) (state : VmoFileState V)
        → KeepsFile calls laws s c state
        → KeepsRound calls laws s (handle_close state).0 ended
    unfolding handle_close
    handle_close-Keeps c s uninitialized h = elim h [ ]
    handle_close-Keeps c s (initialized t) (kept, lt) = record {
      sized = record { known = kept.sized.known; short = kept.sized.short };
      capacity_kept = kept.capacity_kept;
      count_kept = ap (λ (n : ℕ). (n + 2 ^ 64 - 1) % 2 ^ 64) kept.count_kept;
      reach = kept.reach;
    }

    end_round-Keeps :
        (next : ConnectionState) (c : VmoFileConnection) (s : Initialized V)
        (state : VmoFileState V)
        → Handles calls laws s c state next
        → KeepsRound calls laws s
            (end_round calls k file next c state).0
            (end_round calls k file next c state).1
    unfolding end_round
    end_round-Keeps dropped c s state h = handle_close-Keeps c s state h
    end_round-Keeps next c s uninitialized h = elim h [ ]
    end_round-Keeps alive c s (initialized t) h = h
    end_round-Keeps closed c s (initialized t) h = h.0
    end_round-Keeps panicked c s (initialized t) h = h.0

    -- A round of a connection of a file that has its VMO keeps its sizes known, its capacity and
    -- the reach of the file, and a position below 2^63; a connection that ends by itself is counted
    -- no more.
    pub handle_event-KeepsRound :
        (c : VmoFileConnection) (s : Initialized V) (event : Event NodeAttributes)
        → IsSized calls laws s
        → c.seek < size_limit
        → KeepsRound calls laws s
            (handle_event calls k file bits mode_type_file c (initialized s) event).0
            (handle_event calls k file bits mode_type_file c (initialized s) event).1
    unfolding handle_event
    handle_event-KeepsRound c s (request req sent) v lt =
        let done = after c s req sent in
        end_round-Keeps done.2 done.0.0 s done.0.1 (handle_request-Handles c s req sent v lt)
    handle_event-KeepsRound c s malformed v lt =
        handle_close-Keeps c s (initialized s) (Keeps-refl calls laws s v, lt)
    handle_event-KeepsRound c s end_of_stream v lt =
        handle_close-Keeps c s (initialized s) (Keeps-refl calls laws s v, lt)
    handle_event-KeepsRound c s shutdown v lt = Keeps-refl calls laws s v
