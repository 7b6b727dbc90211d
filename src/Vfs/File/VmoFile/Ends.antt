-- ===== src/Vfs/File/VmoFile/Ends.antt =====
-- Where a write to a VMO file ends: src/lib/storage/vfs/rust/src/file/vmo/connection/io1.rs.
use fuchsia_storage.Shared.{
  ℕ, ◌+◌, ◌-◌, ◌≤◌, List, length, ltb, if◌then◌else◌, ◌≡◌, refl, arith, tests, Bool-cases, inl, inr,
}
use fuchsia_storage.Vfs.Status.{Result, ok, err, Result-cases, out_of_range}
use fuchsia_storage.Vfs.File.VmoFile.Kernel.{VmoCalls}
use fuchsia_storage.Vfs.File.VmoFile.{
  Initialized, effective_capacity, resize_vmo, set_file_size, extend, cut, write_content,
  write_initialized, on_vmo, ◌>>>◌,
}

module _ {V H : Type 0} (calls : VmoCalls V H) where
  set_file_size-eq_ok :
      (t : Initialized V) (size : ℕ)
      → (set_file_size calls t size).1 ≡ ok tt
      → (set_file_size calls t size).0.size ≡ size
  unfolding set_file_size
  set_file_size-eq_ok t size h = elim (Result-cases (calls.set_content_size t.vmo size).1) [
    | inl (done, e) ↦ rw e refl
    | inr (status, e) ↦ let failed : err status ≡ ok tt = rw e at h in cc
  ]

  pub >>>-set_file_size :
      (m : Initialized V × Result (Unit {0})) (size : ℕ)
      → (m >>> λ t done. set_file_size calls t size).1 ≡ ok tt
      → (m >>> λ t done. set_file_size calls t size).0.size ≡ size
  >>>-set_file_size (t, ok done) size h = set_file_size-eq_ok t size h
  >>>-set_file_size (t, err status) size h = cc

  extend-reaches :
      (s : Initialized V) (last : ℕ)
      → (extend calls s last).1 ≡ ok tt
      → last ≤ (extend calls s last).0.size
  unfolding extend
  extend-reaches s last h = elim (Bool-cases (ltb s.size last)) [
    | inl e ↦
        let m : Initialized V × Result (Unit {0}) =
          if ltb s.vmo_size last then resize_vmo calls s last else (s, ok tt) in
        rw e (omega (arith, >>>-set_file_size m last (rw e at h)))
    | inr e ↦ rw e (omega (tests))
  ]

  write_content-reaches :
      (s : Initialized V) (offset n : ℕ) (content : List ℕ)
      → (write_content calls s offset content).1 ≡ ok n
      → offset + n ≤ (write_content calls s offset content).0.size
  unfolding write_content
  write_content-reaches s offset n content h =
      written (extend calls s (offset + length content))
        (extend-reaches s (offset + length content)) h
    where
      written :
          (m : Initialized V × Result (Unit {0}))
          → (m.1 ≡ ok tt → offset + length content ≤ m.0.size)
          → (m >>> λ s' done. on_vmo s' (calls.write s'.vmo offset content) >>> λ s'' done'.
              (s'', ok (length content))).1
            ≡ ok n
          → offset + n
            ≤ (m >>> λ s' done. on_vmo s' (calls.write s'.vmo offset content) >>> λ s'' done'.
                (s'', ok (length content))).0.size
      written (t, err e) reaches q = cc
      written (t, ok done) reaches q = elim (Result-cases (calls.write t.vmo offset content).1) [
        | inl (u, w) ↦
            let same : ok (length content) ≡ ok n = rw w at q in
            rw w (let l : length content ≡ n = cc in omega (arith, l, reaches refl))
        | inr (status, w) ↦ let failed : err status ≡ ok n = rw w at q in cc
      ]

  -- A write that succeeds ends within the file.
  pub write_initialized-reaches :
      (s : Initialized V) (offset n : ℕ) (content : List ℕ)
      → (write_initialized calls s offset content).1 ≡ ok n
      → offset + n ≤ (write_initialized calls s offset content).0.size
  unfolding write_initialized write_content
  write_initialized-reaches s offset n content h =
      elim (Bool-cases (ltb (effective_capacity s) offset)) [
        | inl e ↦ let failed : Result.err out_of_range ≡ ok n = rw e at h in cc
        | inr e ↦ rw e (
            write_content-reaches s offset n (cut (effective_capacity s - offset) content)
              (rw e at h))
      ]
