-- ===== src/Vfs/File/VmoFile/Valid.antt =====
-- What every request on a VMO file keeps:
-- src/lib/storage/vfs/rust/src/file/vmo/connection/io1.rs.
use fuchsia_storage.Shared.{
  ℕ, ◌+◌, ◌-◌, ◌≤◌, ◌<◌, List, length, ltb, ◌≡◌, refl, arith, tests, Bool-cases, inl, inr,
  length-take,
}
use fuchsia_storage.Vfs.Status.{ok, Result-cases}
use fuchsia_storage.Vfs.File.VmoFile.Kernel.{VmoCalls, SizeLaws, size_limit}
use fuchsia_storage.Vfs.File.VmoFile.{
  Initialized, effective_capacity, resize_vmo, set_file_size, truncate_initialized, extend, cut,
  write_content, write_initialized, ◌>>>◌,
}

module _ {V H : Type 0} (calls : VmoCalls V H) (laws : SizeLaws calls) where
  -- The size of the VMO is the one that is kept of it, and no size is past 63 bits.
  pub record IsSized (s : Initialized V) : Type 0 where
    pub known : calls.get_size s.vmo ≡ ok s.vmo_size
    pub short : s.size < size_limit

  -- A step keeps the sizes known, the capacity, the count of connections, and lets the file reach
  -- no byte that it could not reach before.
  pub record Keeps (s t : Initialized V) : Type 0 where
    pub sized : IsSized t
    pub capacity_kept : t.capacity ≡ s.capacity
    pub count_kept : t.connection_count ≡ s.connection_count
    pub reach : t.size ≤ effective_capacity s

  pub Keeps-refl : (s : Initialized V) → IsSized s → Keeps s s
  Keeps-refl s v = record {
    sized = v;
    capacity_kept = refl;
    count_kept = refl;
    reach = omega arith;
  }

  -- A VMO of another size, with the same file.
  record Resized (s t : Initialized V) : Type 0 where
    sized : IsSized t
    size_kept : t.size ≡ s.size
    capacity_kept : t.capacity ≡ s.capacity
    count_kept : t.connection_count ≡ s.connection_count

  Resized-Keeps : (s t : Initialized V) → Resized s t → Keeps s t
  Resized-Keeps s t r = record {
    sized = r.sized;
    capacity_kept = r.capacity_kept;
    count_kept = r.count_kept;
    reach = omega (arith, r.size_kept);
  }

  resize_vmo-Resized :
      (s : Initialized V) (size : ℕ)
      → IsSized s
      → Resized s (resize_vmo calls s size).0
        × ((resize_vmo calls s size).1 ≡ ok tt → size ≤ (resize_vmo calls s size).0.vmo_size)
  unfolding resize_vmo
  resize_vmo-Resized s size v = elim (Result-cases (calls.set_size s.vmo size).1) [
    | inl (done, e) ↦
        let (rounded, got, le) = laws.set_size_ok s.vmo size e in
        rw (e, got)
          (
            record {
              sized = record { known = got; short = v.short };
              size_kept = refl;
              capacity_kept = refl;
              count_kept = refl;
            },
            λ _. le,
          )
    | inr (status, e) ↦
        let same = laws.set_size_err s.vmo size status e in
        rw e (
          record {
            sized = record { known = rw same v.known; short = v.short };
            size_kept = refl;
            capacity_kept = refl;
            count_kept = refl;
          },
          λ q. cc,
        )
  ]

  set_file_size-Keeps :
      (s t : Initialized V) (size : ℕ)
      → Resized s t
      → size ≤ t.vmo_size
      → size ≤ effective_capacity s
      → Keeps s (set_file_size calls t size).0
  unfolding set_file_size
  set_file_size-Keeps s t size r le room =
      let same = laws.set_content_size_kept t.vmo size in
      elim (Result-cases (calls.set_content_size t.vmo size).1) [
        | inl (done, e) ↦ rw e (record {
          sized = record {
            known = rw same r.sized.known;
            short = omega (arith, le, laws.get_size_bound t.vmo t.vmo_size r.sized.known);
          };
          capacity_kept = r.capacity_kept;
          count_kept = r.count_kept;
          reach = room;
        })
        | inr (status, e) ↦ rw e (record {
          sized = record { known = rw same r.sized.known; short = r.sized.short };
          capacity_kept = r.capacity_kept;
          count_kept = r.count_kept;
          reach = omega (arith, r.size_kept);
        })
      ]

  resized_to :
      (s : Initialized V) (size : ℕ)
      → IsSized s
      → size ≤ effective_capacity s
      → Keeps s (resize_vmo calls s size >>> λ t done. set_file_size calls t size).0
  resized_to s size v room =
      let (r, le) = resize_vmo-Resized s size v in
      elim (Result-cases (resize_vmo calls s size).1) [
        | inl (done, e) ↦
            rw e (set_file_size-Keeps s (resize_vmo calls s size).0 size r (le e) room)
        | inr (status, e) ↦ rw e (Resized-Keeps s (resize_vmo calls s size).0 r)
      ]

  pub truncate_initialized-Keeps :
      (s : Initialized V) (size : ℕ) → IsSized s → Keeps s (truncate_initialized calls s size).0
  unfolding truncate_initialized
  truncate_initialized-Keeps s size v = elim (Bool-cases (ltb (effective_capacity s) size)) [
    | inl e ↦ rw e (Keeps-refl s v)
    | inr e ↦ rw e (resized_to s size v (ground arith))
  ]

  Resized-refl : (s : Initialized V) → IsSized s → Resized s s
  Resized-refl s v = record { sized = v; size_kept = refl; capacity_kept = refl; count_kept = refl }

  extend-Keeps :
      (s : Initialized V) (last : ℕ)
      → IsSized s
      → last ≤ effective_capacity s
      → Keeps s (extend calls s last).0
  unfolding extend
  extend-Keeps s last v room = elim (Bool-cases (ltb s.size last)) [
    | inl e ↦ rw e (elim (Bool-cases (ltb s.vmo_size last)) [
      | inl l ↦ rw l (resized_to s last v room)
      | inr l ↦ rw l (set_file_size-Keeps s s last (Resized-refl s v) (omega tests) room)
    ])
    | inr e ↦ rw e (Keeps-refl s v)
  ]

  on_vmo_write-Keeps :
      (s t : Initialized V) (offset : ℕ) (content : List ℕ)
      → Keeps s t
      → Keeps s (record t { vmo = (calls.write t.vmo offset content).0 })
  on_vmo_write-Keeps s t offset content h = record {
    sized = record {
      known = rw (laws.write_kept t.vmo offset content) h.sized.known;
      short = h.sized.short;
    };
    capacity_kept = h.capacity_kept;
    count_kept = h.count_kept;
    reach = h.reach;
  }

  write_content-Keeps :
      (s : Initialized V) (offset : ℕ) (content : List ℕ)
      → IsSized s
      → offset + length content ≤ effective_capacity s
      → Keeps s (write_content calls s offset content).0
  unfolding write_content
  write_content-Keeps s offset content v room =
      let last = offset + length content in
      let grown = extend-Keeps s last v room in
      let t = (extend calls s last).0 in
      elim (Result-cases (extend calls s last).1) [
        | inl (done, e) ↦ rw e (elim (Result-cases (calls.write t.vmo offset content).1) [
          | inl (done, w) ↦ rw w (on_vmo_write-Keeps s t offset content grown)
          | inr (status, w) ↦ rw w (on_vmo_write-Keeps s t offset content grown)
        ])
        | inr (status, e) ↦ rw e grown
      ]

  pub length-cut : (room : ℕ) (content : List ℕ) → length (cut room content) ≤ room
  unfolding cut
  length-cut room content = ground (arith, length-take {0} room content)

  pub write_initialized-Keeps :
      (s : Initialized V) (offset : ℕ) (content : List ℕ)
      → IsSized s
      → Keeps s (write_initialized calls s offset content).0
  unfolding write_initialized
  write_initialized-Keeps s offset content v =
      let room = effective_capacity s - offset in
      elim (Bool-cases (ltb (effective_capacity s) offset)) [
        | inl e ↦ rw e (Keeps-refl s v)
        | inr e ↦ rw e (
            write_content-Keeps s offset (cut room content) v
              (omega (tests, length-cut room content)))
      ]
