-- ===== src/Vfs/Directory/Dirent/Fits.antt =====
-- The bound of the buffer of entries: src/lib/storage/vfs/rust/src/directory/read_dirents.rs.
use fuchsia_storage.Shared.{
  ap, ◌∙◌, ℕ, ◌+◌, ◌≤◌, ◌<◌, ◌≡◌, refl, Bool, true, false, List, ◌++◌, Option, none, some, leb,
  length, length-append, if◌then◌else◌, arith, ◌⊎◌, inl, inr,
}
use fuchsia_storage.Vfs.Status.{buffer_too_small}
use fuchsia_storage.Vfs.Directory.Entries.{Name, EntryInfo}
use fuchsia_storage.Vfs.Directory.Simple.Reading.{AppendResult, ok_sink, sealed}
use fuchsia_storage.Vfs.Directory.Dirent.{
  DirentConstants, little_endian, header_size, dirent, encode_dirent, DirentSink, Done, not_called,
  did_not_fit, fit_one, seal, append, called, sealed_status,
}

-- A sink is within its bound, its state says whether it holds an entry, and it is not refused.
pub record IsOpen (s : DirentSink) : Type 0 where
  pub bounded : length s.buf ≤ s.max_bytes
  pub filled : s.state ≡ (if leb (length s.buf) 0 then not_called else fit_one)

length-dirent :
    (k : DirentConstants) (entry : EntryInfo) (name : Name)
    → length (dirent k entry name) ≡ header_size + length name
unfolding dirent little_endian
length-dirent k entry name = omega arith

encode-cases :
    (k : DirentConstants) (buf : List ℕ) (max_bytes : ℕ) (entry : EntryInfo) (name : Name)
    (buf' : List ℕ)
    → encode_dirent k buf max_bytes entry name ≡ some (buf', true)
    → (buf' ≡ buf ++ dirent k entry name) × (length buf + header_size + length name ≤ max_bytes)
unfolding encode_dirent
encode-cases k buf max_bytes entry name buf' h = (ground arith, ground arith)

encode_full :
    (k : DirentConstants) (buf : List ℕ) (max_bytes : ℕ) (entry : EntryInfo) (name : Name)
    (buf' : List ℕ)
    → encode_dirent k buf max_bytes entry name ≡ some (buf', false)
    → (buf' ≡ buf) × (max_bytes < length buf + header_size + length name)
unfolding encode_dirent
encode_full k buf max_bytes entry name buf' h = (ground arith, ground arith)

encoded-cases :
    (o : Option (List ℕ × Bool))
    → (o ≡ none) ⊎ ((buf : List ℕ) × ((o ≡ some (buf, true)) ⊎ (o ≡ some (buf, false))))
encoded-cases none = inl refl
encoded-cases (some (buf, true)) = inr (buf, inl refl)
encoded-cases (some (buf, false)) = inr (buf, inr refl)

ok_sink-injective :
    (s s' : DirentSink)
    → ◌≡◌ {A = Option (AppendResult DirentSink Done)} (some (ok_sink s)) (some (ok_sink s'))
    → s ≡ s'
ok_sink-injective s s' h = cc

sealed-injective :
    (d d' : Done)
    → ◌≡◌ {A = Option (AppendResult DirentSink Done)} (some (sealed d)) (some (sealed d'))
    → d ≡ d'
sealed-injective d d' h = cc

called-fit_one : (n : ℕ) → called (if leb n 0 then not_called else fit_one) fit_one ≡ fit_one
called-fit_one n = ground arith

taken-IsOpen :
    (s : DirentSink) (bytes : List ℕ)
    → IsOpen s
    → 0 < length bytes
    → length s.buf + length bytes ≤ s.max_bytes
    → IsOpen (record s { buf = s.buf ++ bytes; state = called s.state fit_one })
taken-IsOpen s bytes i some_bytes room =
    let total = length-append s.buf bytes in
    let longer : leb (length (s.buf ++ bytes)) 0 ≡ false = rw total (ground arith) in
    record {
      bounded = rw total room;
      filled = ap (λ t. called t fit_one) i.filled ∙ called-fit_one (length s.buf) ∙ rw longer;
    }

-- An entry that the sink takes is written behind those before it, whole, and the sink is still
-- within its bound and open.
pub append-IsOpen :
    (k : DirentConstants) (s s' : DirentSink) (entry : EntryInfo) (name : Name)
    → IsOpen s
    → append k s entry name ≡ some (ok_sink s')
    → IsOpen s' × (s'.buf ≡ s.buf ++ dirent k entry name) × (s'.max_bytes ≡ s.max_bytes)
unfolding append
append-IsOpen k s s' entry name i h =
    elim (encoded-cases (encode_dirent k s.buf s.max_bytes entry name)) [
      | inl e ↦ absurd (cc (rw e at h))
      | inr (buf, inl e) ↦
          let (written, room) = encode-cases k s.buf s.max_bytes entry name buf e in
          let size = length-dirent k entry name in
          let same : record s { buf = s.buf ++ dirent k entry name; state = called s.state fit_one }
              ≡ s' =
            ok_sink-injective _ s' (rw (e, written) at h) in
          rw (← same) (
            taken-IsOpen s (dirent k entry name) i (rw size (omega arith))
                (rw size (omega (arith, room))),
            refl,
            refl,
          )
      | inr (buf, inr e) ↦ absurd (cc (rw e at h))
    ]

status_of :
    (n : ℕ)
    → sealed_status (called (if leb n 0 then not_called else fit_one) did_not_fit)
      ≡ (if leb n 0 then some buffer_too_small else none)
status_of n = ground arith

-- An entry that does not fit leaves the buffer as it was, and the answer is that the buffer is too
-- small exactly if no entry came before it.
pub append_full :
    (k : DirentConstants) (s : DirentSink) (d : Done) (entry : EntryInfo) (name : Name)
    → IsOpen s
    → append k s entry name ≡ some (sealed d)
    → (d.buf ≡ s.buf)
      × (d.status ≡ (if leb (length s.buf) 0 then some buffer_too_small else none))
      × (s.max_bytes < length s.buf + header_size + length name)
unfolding append seal
append_full k s d entry name i h =
    elim (encoded-cases (encode_dirent k s.buf s.max_bytes entry name)) [
      | inl e ↦ absurd (cc (rw e at h))
      | inr (buf, inl e) ↦ absurd (cc (rw e at h))
      | inr (buf, inr e) ↦
          let (kept, full) = encode_full k s.buf s.max_bytes entry name buf e in
          let same : seal (record s { buf = s.buf; state = called s.state did_not_fit }) ≡ d =
            sealed-injective _ d (rw (e, kept) at h) in
          rw (← same) (
            refl,
            ap (λ t. sealed_status (called t did_not_fit)) i.filled ∙ status_of (length s.buf),
            full,
          )
    ]
