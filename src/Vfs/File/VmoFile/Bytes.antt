-- ===== src/Vfs/File/VmoFile/Bytes.antt =====
-- The bytes of a VMO file: src/lib/storage/vfs/rust/src/file/vmo/connection/io1.rs.
use fuchsia_storage.Shared.{
  ℕ, ◌+◌, ◌-◌, ◌≤◌, ◌<◌, List, length, ltb, min, max, if◌then◌else◌, ◌≡◌, ◌∙◌, refl, sym, arith,
  tests, ap, Bool-cases, inl, inr, length-take,
}
use fuchsia_storage.Vfs.Status.{Result, ok, err, Result-cases, out_of_range}
use fuchsia_storage.Vfs.File.VmoFile.Kernel.{VmoCalls, ByteLaws}
use fuchsia_storage.BlockClient.Memory.{Memory, fill, contents, fill-take}
use fuchsia_storage.Vfs.File.VmoFile.{
  Initialized, effective_capacity, resize_vmo, set_file_size, truncate_initialized, extend, cut,
  write_content, write_initialized, on_vmo, ◌>>>◌,
}
use fuchsia_storage.Vfs.File.VmoFile.Ends.{>>>-set_file_size}

module _ {V H : Type 0} (calls : VmoCalls V H) (byte : V → Memory)
    (laws : ByteLaws calls byte) where
  -- The bytes below `n` are what they were.
  abbrev Same : ℕ → Initialized V → Initialized V → Type 0
  Same n s t = (a : ℕ) → a < n → byte t.vmo a ≡ byte s.vmo a

  resize_vmo-Same : (s : Initialized V) (size : ℕ) → Same size s (resize_vmo calls s size).0
  unfolding resize_vmo
  resize_vmo-Same s size a h =
      let v = (calls.set_size s.vmo size).0 in
      let same = laws.set_size_bytes s.vmo size a h in
      elim (Result-cases (calls.set_size s.vmo size).1) [
        | inl (done, e) ↦ rw e (elim (Result-cases (calls.get_size v)) [
          | inl (n, g) ↦ rw g same
          | inr (status, g) ↦ rw g same
        ])
        | inr (status, e) ↦ rw e same
      ]

  set_file_size-Same :
      (s : Initialized V) (size a : ℕ) → byte (set_file_size calls s size).0.vmo a ≡ byte s.vmo a
  unfolding set_file_size
  set_file_size-Same s size a =
      let same = laws.set_content_size_bytes s.vmo size a in
      elim (Result-cases (calls.set_content_size s.vmo size).1) [
        | inl (done, e) ↦ rw e same
        | inr (status, e) ↦ rw e same
      ]

  >>>-Same :
      (n size : ℕ) (s : Initialized V) (m : Initialized V × Result (Unit {0}))
      → Same n s m.0
      → Same n s (m >>> λ t done. set_file_size calls t size).0
  >>>-Same n size s (t, err e) h a l = h a l
  >>>-Same n size s (t, ok done) h a l = set_file_size-Same t size a ∙ h a l

  -- A truncation that succeeds sets the size, and keeps the bytes below it.
  pub truncate_initialized-Same :
      (s : Initialized V) (size : ℕ)
      → (truncate_initialized calls s size).1 ≡ ok tt
      → ((truncate_initialized calls s size).0.size ≡ size)
        × Same size s (truncate_initialized calls s size).0
  unfolding truncate_initialized
  truncate_initialized-Same s size h = elim (Bool-cases (ltb (effective_capacity s) size)) [
    | inl e ↦ let failed : Result.err out_of_range ≡ ok tt = rw e at h in cc
    | inr e ↦ rw e (
      >>>-set_file_size calls (resize_vmo calls s size) size (rw e at h),
      >>>-Same size size s (resize_vmo calls s size) (resize_vmo-Same s size),
    )
  ]

  extend-Same :
      (s : Initialized V) (last : ℕ)
      → (extend calls s last).1 ≡ ok tt
      → ((extend calls s last).0.size ≡ max s.size last)
        × Same (max s.size last) s (extend calls s last).0
  unfolding extend
  extend-Same s last h = elim (Bool-cases (ltb s.size last)) [
    | inl e ↦
        let m : Initialized V × Result (Unit {0}) =
          if ltb s.vmo_size last then resize_vmo calls s last else (s, ok tt) in
        let grew : max s.size last ≡ last = omega tests in
        rw (e, grew) (>>>-set_file_size calls m last (rw e at h), >>>-Same last last s m resized)
    | inr e ↦ rw e (omega tests, λ a l. refl)
  ]
    where
      resized : Same last s (if ltb s.vmo_size last then resize_vmo calls s last else (s, ok tt)).0
      resized = elim (Bool-cases (ltb s.vmo_size last)) [
        | inl l ↦ rw l (resize_vmo-Same s last)
        | inr l ↦ rw l (λ a q. refl)
      ]

  -- What a write of `content` at `offset` that succeeds with the answer `n` makes of the file: the
  -- file ends where the write does, or where it did, and the bytes written are those of `content`.
  pub record Wrote (s t : Initialized V) (offset : ℕ) (content : List ℕ) (n : ℕ) : Type 0 where
    pub answer : n ≡ min (length content) (effective_capacity s - offset)
    pub room : offset ≤ effective_capacity s
    pub size : t.size ≡ max s.size (offset + n)
    pub written :
        (a : ℕ) → a < t.size → byte t.vmo a ≡ fill (byte s.vmo) offset n (contents content) a

  abbrev write_to : ℕ → List ℕ → Initialized V × Result (Unit {0}) → Initialized V × Result ℕ
  write_to offset content m = m >>> λ t done.
      on_vmo t (calls.write t.vmo offset content) >>> λ u done'. (u, ok (length content))

  write_to-written :
      (s : Initialized V) (offset n last : ℕ) (content : List ℕ)
      (m : Initialized V × Result (Unit {0}))
      → (m.1 ≡ ok tt → (m.0.size ≡ last) × Same last s m.0)
      → (write_to offset content m).1 ≡ ok n
      → (n ≡ length content)
        × ((write_to offset content m).0.size ≡ last)
        × ((a : ℕ)
            → a < last
            → byte (write_to offset content m).0.vmo a
              ≡ fill (byte s.vmo) offset (length content) (contents content) a)
  write_to-written s offset n last content (t, err e) grew h = cc
  write_to-written s offset n last content (t, ok done) grew h =
      elim (Result-cases (calls.write t.vmo offset content).1) [
        | inl (done', w) ↦
            let answered : ok (length content) ≡ ok n = rw w at h in
            rw w (
              cc,
              (grew refl).0,
              λ a l.
                  let same = (grew refl).1 a l in
                  ground (arith, laws.write_ok t.vmo offset content w a, same),
            )
        | inr (status, w) ↦ let failed : Result.err status ≡ ok n = rw w at h in cc
      ]

  length-cut : (room : ℕ) (content : List ℕ) → length (cut room content) ≡ min (length content) room
  unfolding cut
  length-cut room content = ground (arith, length-take {0} room content)

  fill-cut :
      (m : Memory) (offset room : ℕ) (content : List ℕ) (a : ℕ)
      → fill m offset (length (cut room content)) (contents (cut room content)) a
        ≡ fill m offset (min (length content) room) (contents content) a
  unfolding cut
  fill-cut m offset room content a = elim (Bool-cases (ltb room (length content))) [
    | inl e ↦
        let short : min (length content) room ≡ room = omega tests in
        rw (e, short) (fill-take m offset room content a (omega tests))
    | inr e ↦ let all : min (length content) room ≡ length content = omega tests in rw (e, all) refl
  ]

  pub write_initialized-Wrote :
      (s : Initialized V) (offset n : ℕ) (content : List ℕ)
      → (write_initialized calls s offset content).1 ≡ ok n
      → Wrote s (write_initialized calls s offset content).0 offset content n
  unfolding write_initialized write_content
  write_initialized-Wrote s offset n content h =
      elim (Bool-cases (ltb (effective_capacity s) offset)) [
        | inl e ↦ let failed : Result.err out_of_range ≡ ok n = rw e at h in cc
        | inr e ↦
            let room = effective_capacity s - offset in
            let last = offset + length (cut room content) in
            let wrote =
              write_to-written s offset n (max s.size last) (cut room content) (extend calls s last)
                (extend-Same s last) (rw e at h) in
            let answer : n ≡ min (length content) room = wrote.0 ∙ length-cut room content in
            rw e (record {
              answer = answer;
              room = omega tests;
              size = omega (arith, wrote.1, wrote.0);
              written = λ a l.
                  wrote.2 a (omega (arith, wrote.1))
                  ∙ fill-cut (byte s.vmo) offset room content a
                  ∙ ap (λ (k : ℕ). fill (byte s.vmo) offset k (contents content) a) (sym answer);
            })
      ]
