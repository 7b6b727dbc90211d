-- ===== src/Vfs/File/VmoFile/Contract.antt =====
-- What connections to a VMO file promise, and how far the file reaches in every order of events:
-- src/lib/storage/vfs/rust/src/file/vmo/connection/io1.rs.
use fuchsia_storage.Shared.{
  ℕ, ◌+◌, ◌-◌, ◌%◌, ◌^◌, ◌≤◌, ◌<◌, false, not, List, [], ◌∷◌, ◌++◌, length, take, ltb, min, ◌≡◌,
  ◌∙◌, refl, sym, arith, tests, ap, subst, Bool-cases, inl, inr, pos, length-take,
}
use fuchsia_storage.Vfs.Status.{Result, ok, err, bad_handle}
use fuchsia_storage.Vfs.Flags.{
  OpenFlags, FioConstants, intersects, only_right_readable, only_right_writable,
}
use fuchsia_storage.Vfs.Common.{ModeBits}
use fuchsia_storage.Vfs.File.Connection.Requests.{Event}
use fuchsia_storage.Vfs.File.VmoFile.Requests.{
  NodeAttributes, handle_seek, seek_by, set_seek, seek_origin,
}
use fuchsia_storage.Vfs.File.Connection.{start, offset_from}
use fuchsia_storage.Vfs.File.VmoFile.Kernel.{VmoCalls, SizeLaws, ByteLaws, size_limit}
use fuchsia_storage.BlockClient.Memory.{
  Memory, fill, contents, bytes_at, bytes_at_cong, bytes_at-fill, fill-take,
}
use fuchsia_storage.Vfs.File.VmoFile.{
  Initialized, VmoFileState, uninitialized, initialized, VmoFile, VmoFileConnection, NewVmo,
  effective_capacity, read_initialized, handle_read_at, write_initialized, handle_write_at,
  handle_read, returns,
}
use fuchsia_storage.Vfs.File.VmoFile.Open.{
  ServerEnd, Opened, refused, connected, abandoned, Served, continues, ended, aborted,
  create_connection, handle_event,
}
use fuchsia_storage.Vfs.File.VmoFile.Valid.{IsSized, Keeps}
use fuchsia_storage.Vfs.File.VmoFile.Handlers.{KeepsRound, handle_read-within}
use fuchsia_storage.Vfs.File.VmoFile.Rounds.{handle_event-KeepsRound}
use fuchsia_storage.Vfs.File.VmoFile.Bytes.{Wrote, write_initialized-Wrote}
use fuchsia_storage.Vfs.File.VmoFile.Ensured.{Opens}
use fuchsia_storage.Vfs.File.VmoFile.Opening.{create_connection-Opens}
use fuchsia_storage.Vfs.File.VmoFile.System.{
  System, Step, open_refused, open_connected, open_abandoned, served, closes, aborts, Reach, here,
  next,
}
use fuchsia_storage.Vfs.File.VmoFile.Counted.{
  AllBelow, AllBelow-append, IsConsistent, IsConsistent-IsKept, Step-IsConsistent,
}

module _ {V H : Type 0} (calls : VmoCalls V H) (byte : V → Memory)
    (laws : ByteLaws calls byte) where
  -- A write on a file that has its VMO, where it succeeds with the answer n: n is the length of the
  -- content, or what there is room for up to the greater of size and capacity; the file then ends
  -- where the write does, or where it did; and each of its bytes is the one written there, or the
  -- one that the VMO had there.
  pub handle_write_at_refines :
      (c : VmoFileConnection) (s t : Initialized V) (offset n : ℕ) (content : List ℕ)
      → handle_write_at calls c (initialized s) offset content ≡ (initialized t, ok n)
      → Wrote calls byte laws s t offset content n
  unfolding handle_write_at
  handle_write_at_refines c s t offset n content h =
      elim (Bool-cases (not (intersects c.flags only_right_writable))) [
        | inl e ↦
            let failed : ◌≡◌ {A = VmoFileState V × Result ℕ} (initialized s, err bad_handle)
                (initialized t, ok n) =
              rw e at h in
            cc
        | inr e ↦
            let w = write_initialized calls s offset content in
            let done : ◌≡◌ {A = VmoFileState V × Result ℕ} (initialized w.0, w.1)
                (initialized t, ok n) =
              rw e at h in
            let same : w.0 ≡ t = cc in
            subst (λ x. Wrote calls byte laws s x offset content n) same
              (write_initialized-Wrote calls byte laws s offset n content (cc))
      ]

  -- A read on a file that has its VMO, where it succeeds, returns the bytes that the file holds
  -- from the offset on, as many as were asked for or up to the end of the file, and none past it.
  pub handle_read_at_refines :
      (c : VmoFileConnection) (s : Initialized V) (offset count : ℕ) (buf : List ℕ)
      → handle_read_at calls c (initialized s) offset count ≡ ok buf
      → buf ≡ bytes_at (byte s.vmo) offset (min count (s.size - offset))
  unfolding handle_read_at read_initialized bytes_at
  handle_read_at_refines c s offset count buf h =
      elim (Bool-cases (not (intersects c.flags only_right_readable))) [
        | inl e ↦ let failed : err bad_handle ≡ ok buf = rw e at h in cc
        | inr e ↦
            let read : read_initialized calls s offset count ≡ ok buf = rw e at h in
            elim (Bool-cases (ltb s.size offset)) [
              | inl l ↦
                  let none_read : ok [] ≡ ok buf = rw l at read in
                  let past : min count (s.size - offset) ≡ 0 = omega tests in rw past (cc)
              | inr l ↦ laws.read_ok s.vmo offset (min count (s.size - offset)) buf (rw l at read)
            ]
      ]

  -- What a write that succeeds has written is what a read of as many bytes at its offset, through
  -- any connection that may read, returns where it succeeds.
  pub handle_read_at-handle_write_at :
      (c d : VmoFileConnection) (s t : Initialized V) (offset n : ℕ) (content buf : List ℕ)
      → handle_write_at calls c (initialized s) offset content ≡ (initialized t, ok n)
      → handle_read_at calls d (initialized t) offset n ≡ ok buf
      → buf ≡ take n content
  handle_read_at-handle_write_at c d s t offset n content buf w r =
      let wrote = handle_write_at_refines c s t offset n content w in
      let whole : min n (t.size - offset) ≡ n = omega (arith, wrote.size) in
      let part : length (take n content) ≡ n =
        omega (arith, length-take {0} n content, wrote.answer) in
      let read = handle_read_at_refines d t offset n buf r in
      let m = fill (byte s.vmo) offset (length (take n content)) (contents (take n content)) in
      read
      ∙ ap (λ (k : ℕ). bytes_at (byte t.vmo) offset k) (whole ∙ sym part)
      ∙ bytes_at_cong (byte t.vmo) m offset offset (length (take n content)) (λ i l.
        wrote.written (offset + i) (omega (arith, wrote.size, part))
        ∙ sym (fill-take (byte s.vmo) offset n content (offset + i) (omega (arith, wrote.answer))))
      ∙ bytes_at-fill (byte s.vmo) offset (take n content)

module _ {V H : Type 0} (calls : VmoCalls V H) (laws : SizeLaws calls) where
  seek_start :
      (c : VmoFileConnection) (s : Initialized V) (offset : ℕ)
      → c.flags.node_reference ≡ false
      → offset < size_limit
      → (handle_seek calls c (initialized s) start (pos offset)).0 ≡ record c { seek = offset }
  unfolding handle_seek seek_by seek_origin set_seek offset_from
  seek_start c s offset r lt =
      let zero_add : 0 + offset ≡ offset = omega arith in rw zero_add (ground arith)

  -- A Seek from the start to a position below 2^63 and a Read of n bytes answer what one ReadAt of
  -- n bytes at the position does, the errors included, on a file that knows the size of its VMO and
  -- a connection that is not a node reference; the Read does not panic.
  pub handle_read-handle_seek :
      (c : VmoFileConnection) (s : Initialized V) (offset count : ℕ)
      → IsSized calls laws s
      → c.flags.node_reference ≡ false
      → offset < size_limit
      → (handle_read calls
          (handle_seek calls c (initialized s) start (pos offset)).0
          (initialized s)
          count).1
        ≡ returns (handle_read_at calls c (initialized s) offset count)
  unfolding handle_read_at
  handle_read-handle_seek c s offset count v r lt =
      rw (seek_start c s offset r lt)
        (handle_read-within calls laws (record c { seek = offset }) s count lt v.short).1

  -- A file with its VMO, with the capacity of `s`, that reaches no further than `s`.
  abbrev pub ReachesWithin : Initialized V → VmoFileState V → Type 0
  ReachesWithin s uninitialized = ⊥
  ReachesWithin s (initialized t) = (t.capacity ≡ s.capacity) × (t.size ≤ effective_capacity s)

  Keeps-ReachesWithin :
      (s t u : Initialized V) (n : ℕ)
      → ReachesWithin s (initialized t)
      → Keeps calls laws (record t { connection_count = n }) u
      → ReachesWithin s (initialized u)
  Keeps-ReachesWithin s t u n h kept =
      (kept.capacity_kept ∙ h.0, omega (arith, h.0, h.1, kept.reach))

  opened-ReachesWithin :
      (s : Initialized V) (old state : VmoFileState V) (o : Opened)
      → ReachesWithin s old
      → Opens calls laws old state o
      → ReachesWithin s state
  opened-ReachesWithin s uninitialized state o h f = elim h [ ]
  opened-ReachesWithin s (initialized t) uninitialized (refused e) h f = elim f [ ]
  opened-ReachesWithin s (initialized t) uninitialized (connected c) h f = elim f [ ]
  opened-ReachesWithin s (initialized t) uninitialized abandoned h f = elim f [ ]
  opened-ReachesWithin s (initialized t) (initialized u) (refused e) h f =
      Keeps-ReachesWithin s t u t.connection_count h f
  opened-ReachesWithin s (initialized t) (initialized u) (connected c) h f =
      Keeps-ReachesWithin s t u ((t.connection_count + 1) % 2 ^ 64) h f.0
  opened-ReachesWithin s (initialized t) (initialized u) abandoned h f =
      Keeps-ReachesWithin s t u ((t.connection_count + 1) % 2 ^ 64) h f

  round-ReachesWithin :
      (s t : Initialized V) (state : VmoFileState V) (r : Served)
      → ReachesWithin s (initialized t)
      → KeepsRound calls laws t state r
      → ReachesWithin s state
  round-ReachesWithin s t uninitialized r h f = elim f [ ]
  round-ReachesWithin s t (initialized u) (continues c) h f =
      Keeps-ReachesWithin s t u t.connection_count h f.0
  round-ReachesWithin s t (initialized u) ended h f =
      Keeps-ReachesWithin s t u ((t.connection_count + 2 ^ 64 - 1) % 2 ^ 64) h f
  round-ReachesWithin s t (initialized u) aborted h f =
      Keeps-ReachesWithin s t u t.connection_count h f

  module _ (k : FioConstants) (bits : ModeBits) (mode_type_file : ℕ) (file : VmoFile) where
    round_of :
        (s : Initialized V) (old state : VmoFileState V) (r : Served)
        (live before after : List VmoFileConnection) (c : VmoFileConnection) (leaked : ℕ)
        (event : Event NodeAttributes)
        → IsConsistent calls laws old live leaked
        → ReachesWithin s old
        → live ≡ before ++ c ∷ after
        → handle_event calls k file bits mode_type_file c old event ≡ (state, r)
        → ReachesWithin s state
    round_of s uninitialized state r live before after c leaked event g h e q = elim h [ ]
    round_of s (initialized t) state r live before after c leaked event g h e q =
        let below = (AllBelow-append before after c (subst AllBelow e g.1)).1 in
        round-ReachesWithin s t state r h (
          subst (λ (x : VmoFileState V × Served). KeepsRound calls laws t x.0 x.1) q
            (handle_event-KeepsRound calls laws k bits mode_type_file file c t event g.0 below))

    open_of :
        (s : Initialized V) (x : System V) (state : VmoFileState V) (o : Opened) (flags : OpenFlags)
        (server_end : ServerEnd) (init : Result (NewVmo V))
        → IsConsistent calls laws x.state x.live x.leaked
        → ReachesWithin s x.state
        → create_connection calls k file flags server_end init x.state ≡ (state, o)
        → ReachesWithin s state
    open_of s x state o flags server_end init g h q =
        let kept = IsConsistent-IsKept calls laws x.state x.live x.leaked g in
        opened-ReachesWithin s x.state state o h (
          subst (λ (y : VmoFileState V × Opened). Opens calls laws x.state y.0 y.1) q
            (create_connection-Opens calls laws k file x.state flags server_end init kept))

    Step-ReachesWithin :
        {x y : System V} (s : Initialized V)
        → Step calls k bits mode_type_file file x y
        → IsConsistent calls laws x.state x.live x.leaked
        → ReachesWithin s x.state
        → ReachesWithin s y.state
    Step-ReachesWithin {x} s (open_refused flags server_end init state e q) g h =
        open_of s x state (refused e) flags server_end init g h q
    Step-ReachesWithin {x} s (open_connected flags server_end init state c q) g h =
        open_of s x state (connected c) flags server_end init g h q
    Step-ReachesWithin {x} s (open_abandoned flags server_end init state q) g h =
        open_of s x state abandoned flags server_end init g h q
    Step-ReachesWithin {x} s (served before after c c' event state e q) g h =
        round_of s x.state state (continues c') x.live before after c x.leaked event g h e q
    Step-ReachesWithin {x} s (closes before after c event state e q) g h =
        round_of s x.state state ended x.live before after c x.leaked event g h e q
    Step-ReachesWithin {x} s (aborts before after c event state e q) g h =
        round_of s x.state state aborted x.live before after c x.leaked event g h e q

    Reach-both :
        {x y : System V} (s : Initialized V)
        → Reach calls k bits mode_type_file file x y
        → IsConsistent calls laws x.state x.live x.leaked
        → ReachesWithin s x.state
        → IsConsistent calls laws y.state y.live y.leaked × ReachesWithin s y.state
    Reach-both s here g h = (g, h)
    Reach-both s (next r st) g h =
        let both = Reach-both s r g h in
        (
          Step-IsConsistent calls laws k bits mode_type_file file st both.0,
          Step-ReachesWithin s st both.0 both.1,
        )

    -- Once a VMO file has its VMO, in a consistent system, no order of opens and rounds takes the
    -- VMO from it, changes its capacity, or makes it larger than the greater of its size and its
    -- capacity was.
    pub Reach-ReachesWithin :
        {x y : System V} (s : Initialized V)
        → Reach calls k bits mode_type_file file x y
        → IsConsistent calls laws x.state x.live x.leaked
        → x.state ≡ initialized s
        → ReachesWithin s y.state
    Reach-ReachesWithin s r g e =
        let start : ReachesWithin s (initialized s) = (refl, omega arith) in
        (Reach-both s r g (subst (ReachesWithin s) (sym e) start)).1
