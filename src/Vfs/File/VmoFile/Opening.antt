-- ===== src/Vfs/File/VmoFile/Opening.antt =====
-- What opening a VMO file makes of its state:
-- src/lib/storage/vfs/rust/src/file/vmo/connection/io1.rs.
use fuchsia_storage.Shared.{
  ℕ, ◌+◌, ◌^◌, ◌%◌, Bool, true, false, ◌≡◌, refl, ap, Bool-cases, inl, inr,
}
use fuchsia_storage.Vfs.Status.{Result, ok, err}
use fuchsia_storage.Vfs.Flags.{OpenFlags, FioConstants, intersects, only_truncate, only_describe}
use fuchsia_storage.Vfs.File.Flags.{new_connection_validate_flags}
use fuchsia_storage.Vfs.File.VmoFile.Kernel.{VmoCalls, SizeLaws}
use fuchsia_storage.Vfs.File.VmoFile.{
  Initialized, VmoFileState, uninitialized, initialized, NewVmo, VmoFile, VmoFileConnection,
  Outcome, panics, returns, NodeInfo, truncate_vmo,
}
use fuchsia_storage.Vfs.File.VmoFile.Requests.{get_node_info}
use fuchsia_storage.Vfs.File.VmoFile.Open.{
  ServerEnd, ensure_vmo, describe_new, connect, connect_truncated, truncate_new, create_validated,
  create_connection,
}
use fuchsia_storage.Vfs.File.VmoFile.Valid.{Keeps-refl}
use fuchsia_storage.Vfs.File.VmoFile.Ensured.{
  count_of, From, IsFrom, Opens, IsKept, ensure_vmo-IsFrom, truncate_vmo-IsFrom,
}

module _ {V H : Type 0} (calls : VmoCalls V H) (laws : SizeLaws calls) where
  counted :
      (old : VmoFileState V) (n : ℕ) (t : Initialized V)
      → From calls laws old n t
      → From calls laws old
          ((n + 1) % 2 ^ 64)
          (record t { connection_count = (t.connection_count + 1) % 2 ^ 64 })
  counted uninitialized n t f =
      (record { known = f.0.known; short = f.0.short }, ap (λ (x : ℕ). (x + 1) % 2 ^ 64) f.1)
  counted (initialized s) n t f = record {
    sized = record { known = f.sized.known; short = f.sized.short };
    capacity_kept = f.capacity_kept;
    count_kept = ap (λ (x : ℕ). (x + 1) % 2 ^ 64) f.count_kept;
    reach = f.reach;
  }

  describe_new-Opens :
      (old : VmoFileState V) (t : Initialized V) (c : VmoFileConnection) (sent : Bool)
      (r : Outcome (NodeInfo H))
      → From calls laws old ((count_of calls laws old + 1) % 2 ^ 64) t
      → c.seek ≡ 0
      → Opens calls laws old (initialized t) (describe_new calls c sent r)
  unfolding describe_new
  describe_new-Opens old t c true (returns (ok info)) f z = (f, z)
  describe_new-Opens old t c false (returns (ok info)) f z = f
  describe_new-Opens old t c sent (returns (err e)) f z = f
  describe_new-Opens old t c sent panics f z = f

  connect-Opens :
      (old state : VmoFileState V) (flags : OpenFlags) (server_end : ServerEnd)
      → IsFrom calls laws old state
      → Opens calls laws old
          (connect calls flags server_end state).0
          (connect calls flags server_end state).1
  unfolding connect
  connect-Opens old uninitialized flags server_end f = f
  connect-Opens old (initialized t) flags server_end f =
      let u = record t { connection_count = (t.connection_count + 1) % 2 ^ 64 } in
      let g = counted old (count_of calls laws old) t f in
      elim (Bool-cases server_end.into_stream) [
        | inl e ↦ rw e (elim (Bool-cases (intersects flags only_describe)) [
          | inl d ↦ rw d (
              describe_new-Opens old u (record { flags = flags; seek = 0 }) server_end.on_open_sent
                (get_node_info calls flags (initialized u)) g refl)
          | inr d ↦ rw d (g, refl)
        ])
        | inr e ↦ rw e g
      ]

  connect_truncated-Opens :
      (old : VmoFileState V) (flags : OpenFlags) (server_end : ServerEnd)
      (r : (VmoFileState V × ℕ) × Result (Unit {0}))
      → IsFrom calls laws old r.0.0
      → Opens calls laws old
          (connect_truncated calls flags server_end r).0
          (connect_truncated calls flags server_end r).1
  unfolding connect_truncated
  connect_truncated-Opens old flags server_end ((state, seek), err e) f = f
  connect_truncated-Opens old flags server_end ((state, seek), ok res) f =
      connect-Opens old state flags server_end f

  truncate_new-Opens :
      (old : VmoFileState V) (flags : OpenFlags) (server_end : ServerEnd)
      (r : VmoFileState V × Result (Unit {0}))
      → IsFrom calls laws old r.0
      → Opens calls laws old
          (truncate_new calls flags server_end r).0
          (truncate_new calls flags server_end r).1
  unfolding truncate_new
  truncate_new-Opens old flags server_end (state, err e) f = f
  truncate_new-Opens old flags server_end (state, ok res) f =
      elim (Bool-cases (intersects flags only_truncate)) [
        | inl e ↦ rw e (
            connect_truncated-Opens old flags server_end (truncate_vmo calls state 0 0)
              (truncate_vmo-IsFrom calls laws old state f))
        | inr e ↦ rw e (connect-Opens old state flags server_end f)
      ]

  create_validated-Opens :
      (old : VmoFileState V) (server_end : ServerEnd) (init : Result (NewVmo V))
      (flags : Result OpenFlags)
      → IsKept calls laws old
      → Opens calls laws old
          (create_validated calls server_end old init flags).0
          (create_validated calls server_end old init flags).1
  unfolding create_validated
  create_validated-Opens uninitialized server_end init (err e) v = tt
  create_validated-Opens (initialized s) server_end init (err e) v = Keeps-refl calls laws s v
  create_validated-Opens old server_end init (ok flags) v =
      truncate_new-Opens old flags server_end (ensure_vmo calls old init)
        (ensure_vmo-IsFrom calls laws old init v)

  -- An open that is refused counts no connection; one that is not counts one, also where it is
  -- given up afterwards. A file that had its VMO keeps its sizes known, its capacity and its reach.
  pub create_connection-Opens :
      (k : FioConstants) (file : VmoFile) (old : VmoFileState V) (flags : OpenFlags)
      (server_end : ServerEnd) (init : Result (NewVmo V))
      → IsKept calls laws old
      → Opens calls laws old
          (create_connection calls k file flags server_end init old).0
          (create_connection calls k file flags server_end init old).1
  unfolding create_connection
  create_connection-Opens k file old flags server_end init v =
      create_validated-Opens old server_end init
        (new_connection_validate_flags k flags file.readable file.writable file.executable false) v
