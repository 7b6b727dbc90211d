-- ===== src/Vfs/File/VmoFile/Handlers.antt =====
-- What the handlers of a VMO file keep:
-- src/lib/storage/vfs/rust/src/file/vmo/connection/io1.rs.
use fuchsia_storage.Shared.{
  ℕ, ◌+◌, ◌-◌, ◌^◌, ◌%◌, ◌<◌, Bool, true, false, not, List, length, Option, none, some, ltb, ℤ, min,
  if◌then◌else◌, ◌≡◌, ◌≢◌, [], lt→ltb, refl, arith, tests, Bool-cases, inl, inr,
}
use fuchsia_storage.Vfs.Status.{Result, ok, err, bad_handle}
use fuchsia_storage.Vfs.Flags.{
  intersects, only_right_readable, only_right_writable, only_node_reference,
}
use fuchsia_storage.Vfs.File.Connection.{SeekOrigin, offset_from}
use fuchsia_storage.Vfs.File.Connection.Requests.{ConnectionState, alive, closed, dropped, panicked}
use fuchsia_storage.Vfs.File.VmoFile.Kernel.{VmoCalls, SizeLaws, size_limit}
use fuchsia_storage.Vfs.File.VmoFile.{
  Initialized, VmoFileState, uninitialized, initialized, VmoFileConnection, panics, returns,
  read_initialized, advance_read, handle_read_at, handle_read, handle_write_at, advance_written,
  handle_write,
}
use fuchsia_storage.Vfs.File.VmoFile.Requests.{set_seek, seek_by, seek_origin, handle_seek}
use fuchsia_storage.Vfs.File.VmoFile.Open.{Served, continues, ended, aborted}
use fuchsia_storage.Vfs.File.VmoFile.Ends.{write_initialized-reaches}
use fuchsia_storage.Vfs.File.VmoFile.Valid.{IsSized, Keeps, Keeps-refl, write_initialized-Keeps}

-- The state with a connection less.
abbrev pub uncounted : {V : Type 0} → Initialized V → Initialized V
uncounted s = record s { connection_count = (s.connection_count + 2 ^ 64 - 1) % 2 ^ 64 }

module _ {V H : Type 0} (calls : VmoCalls V H) (laws : SizeLaws calls) where
  -- A file whose state is kept, and a position below 2^63.
  abbrev pub KeepsFile : Initialized V → VmoFileConnection → VmoFileState V → Type 0
  KeepsFile s c uninitialized = ⊥
  KeepsFile s c (initialized t) = Keeps calls laws s t × (c.seek < size_limit)

  -- What a request, by what it leaves of the connection, keeps.
  abbrev pub Handles : Initialized V → VmoFileConnection → VmoFileState V → ConnectionState → Type 0
  Handles s c state alive = KeepsFile s c state
  Handles s c state dropped = KeepsFile s c state
  Handles s c state panicked = KeepsFile s c state
  Handles s c state closed = KeepsFile (uncounted s) c state

  -- What a round keeps: a connection that has ended is counted no more.
  abbrev pub KeepsRound : Initialized V → VmoFileState V → Served → Type 0
  KeepsRound s uninitialized served = ⊥
  KeepsRound s (initialized t) (continues c) = Keeps calls laws s t × (c.seek < size_limit)
  KeepsRound s (initialized t) ended = Keeps calls laws (uncounted s) t
  KeepsRound s (initialized t) aborted = Keeps calls laws s t

  pub Handles-sent :
      (s : Initialized V) (c : VmoFileConnection) (state : VmoFileState V) (sent : Bool)
      → KeepsFile s c state
      → Handles s c state (if sent then alive else dropped)
  Handles-sent s c state true h = h
  Handles-sent s c state false h = h

  read_initialized-within :
      (s : Initialized V) (offset count : ℕ) (buf : List ℕ)
      → read_initialized calls s offset count ≡ ok buf
      → offset < size_limit
      → s.size < size_limit
      → offset + length buf < size_limit
  unfolding read_initialized
  read_initialized-within s offset count buf h lt short = elim (Bool-cases (ltb s.size offset)) [
    | inl e ↦
        let none_read : ok [] ≡ ok buf = rw e at h in
        let same : [] ≡ buf = cc in rw (← same) (omega arith)
    | inr e ↦
        let asked : calls.read s.vmo offset (min count (s.size - offset)) ≡ ok buf = rw e at h in
        omega (tests, laws.read_length s.vmo offset (min count (s.size - offset)) buf asked)
  ]

  advance_read-within :
      (c : VmoFileConnection) (r : Result (List ℕ))
      → c.seek < size_limit
      → ((buf : List ℕ) → r ≡ ok buf → c.seek + length buf < size_limit)
      → ((advance_read c r).0.seek < size_limit) × ((advance_read c r).1 ≡ returns r)
  unfolding advance_read
  advance_read-within c (err e) lt h = (lt, refl)
  advance_read-within c (ok buf) lt h = ground (arith, h buf refl)

  pub handle_read-within :
      (c : VmoFileConnection) (s : Initialized V) (count : ℕ)
      → c.seek < size_limit
      → s.size < size_limit
      → ((handle_read calls c (initialized s) count).0.seek < size_limit)
        × ((handle_read calls c (initialized s) count).1
            ≡ returns (handle_read_at calls c (initialized s) c.seek count))
  unfolding handle_read handle_read_at
  handle_read-within c s count lt short =
      elim (Bool-cases (not (intersects c.flags only_right_readable))) [
        | inl e ↦ rw e (lt, refl)
        | inr e ↦ rw e (
            advance_read-within c (read_initialized calls s c.seek count) lt
              (λ buf q. read_initialized-within s c.seek count buf q lt short))
      ]

  set_seek-within :
      (c : VmoFileConnection) (o : Option ℕ)
      → c.seek < size_limit
      → ((set_seek c o).0.seek < size_limit) × ((set_seek c o).1 ≢ panics)
  unfolding set_seek
  set_seek-within c none lt = ground arith
  set_seek-within c (some offset) lt = ground arith

  seek_by-within :
      (c : VmoFileConnection) (origin : ℕ) (offset : ℤ)
      → c.seek < size_limit
      → origin < size_limit
      → ((seek_by c origin offset).0.seek < size_limit) × ((seek_by c origin offset).1 ≢ panics)
  unfolding seek_by
  seek_by-within c origin offset lt l =
      rw (lt→ltb origin (2 ^ 63) l) (set_seek-within c (offset_from origin offset) lt)

  seek_origin-within :
      (origin : SeekOrigin) (position size : ℕ)
      → position < size_limit
      → size < size_limit
      → seek_origin origin position size < size_limit
  unfolding seek_origin
  seek_origin-within SeekOrigin.start position size lt l = omega arith
  seek_origin-within SeekOrigin.current position size lt l = lt
  seek_origin-within SeekOrigin.end position size lt l = l

  pub handle_seek-within :
      (c : VmoFileConnection) (s : Initialized V) (origin : SeekOrigin) (offset : ℤ)
      → c.seek < size_limit
      → s.size < size_limit
      → ((handle_seek calls c (initialized s) origin offset).0.seek < size_limit)
        × ((handle_seek calls c (initialized s) origin offset).1 ≢ panics)
  unfolding handle_seek
  handle_seek-within c s origin offset lt short =
      elim (Bool-cases (intersects c.flags only_node_reference)) [
        | inl e ↦ rw e (lt, λ q. cc)
        | inr e ↦ rw e (
            seek_by-within c (seek_origin origin c.seek s.size) offset lt
              (seek_origin-within origin c.seek s.size lt short))
      ]

  pub handle_write_at-Keeps :
      (c : VmoFileConnection) (s : Initialized V) (offset : ℕ) (content : List ℕ)
      → IsSized calls laws s
      → c.seek < size_limit
      → KeepsFile s c (handle_write_at calls c (initialized s) offset content).0
  unfolding handle_write_at
  handle_write_at-Keeps c s offset content v lt =
      elim (Bool-cases (not (intersects c.flags only_right_writable))) [
        | inl e ↦ rw e (Keeps-refl calls laws s v, lt)
        | inr e ↦ rw e (write_initialized-Keeps calls laws s offset content v, lt)
      ]

  handle_write_at-within :
      (c : VmoFileConnection) (s : Initialized V) (offset n : ℕ) (content : List ℕ)
      → IsSized calls laws s
      → (handle_write_at calls c (initialized s) offset content).1 ≡ ok n
      → offset + n < size_limit
  unfolding handle_write_at
  handle_write_at-within c s offset n content v h =
      elim (Bool-cases (not (intersects c.flags only_right_writable))) [
        | inl e ↦ let failed : err bad_handle ≡ ok n = rw e at h in cc
        | inr e ↦
            let reached = write_initialized-reaches calls s offset n content (rw e at h) in
            omega (arith, (write_initialized-Keeps calls laws s offset content v).sized.short)
      ]

  advance_written-Keeps :
      (c : VmoFileConnection) (s : Initialized V) (state : VmoFileState V) (r : Result ℕ)
      → KeepsFile s c state
      → ((n : ℕ) → r ≡ ok n → c.seek + n < size_limit)
      → KeepsFile s (advance_written c (state, r)).0 (advance_written c (state, r)).1
  unfolding advance_written
  advance_written-Keeps c s uninitialized r k h = elim k [ ]
  advance_written-Keeps c s (initialized t) (err e) k h = k
  advance_written-Keeps c s (initialized t) (ok n) k h = (k.0, omega (arith, h n refl))

  pub handle_write-Keeps :
      (c : VmoFileConnection) (s : Initialized V) (content : List ℕ)
      → IsSized calls laws s
      → c.seek < size_limit
      → KeepsFile s
          (handle_write calls c (initialized s) content).0
          (handle_write calls c (initialized s) content).1
  unfolding handle_write
  handle_write-Keeps c s content v lt =
      let wrote = handle_write_at calls c (initialized s) c.seek content in
      advance_written-Keeps c s wrote.0 wrote.1 (handle_write_at-Keeps c s c.seek content v lt)
        (λ n q. handle_write_at-within c s c.seek n content v q)
