-- ===== src/Vfs/File/VmoFile/Ensured.antt =====
-- The state that a VMO file has once its VMO is there:
-- src/lib/storage/vfs/rust/src/file/vmo/connection/io1.rs.
use fuchsia_storage.Shared.{
  ℕ, ◌+◌, ◌^◌, ◌%◌, ◌<◌, ltb, ◌≡◌, ◌∙◌, refl, arith, tests, Bool-cases, inl, inr,
}
use fuchsia_storage.Vfs.Status.{Result, ok, err, unavailable}
use fuchsia_storage.Vfs.File.VmoFile.Kernel.{VmoCalls, SizeLaws, size_limit}
use fuchsia_storage.Vfs.File.VmoFile.{
  Initialized, VmoFileState, uninitialized, initialized, NewVmo, truncate_initialized, truncate_vmo,
  clamp_seek,
}
use fuchsia_storage.Vfs.File.VmoFile.Open.{
  Opened, refused, connected, abandoned, grown, recover, init_sized, ensure_vmo,
}
use fuchsia_storage.Vfs.File.VmoFile.Valid.{IsSized, Keeps, Keeps-refl, truncate_initialized-Keeps}

module _ {V H : Type 0} (calls : VmoCalls V H) (laws : SizeLaws calls) where
  abbrev pub count_of : VmoFileState V → ℕ
  count_of uninitialized = 0
  count_of (initialized s) = s.connection_count

  abbrev pub IsUninitialized : VmoFileState V → Type 0
  IsUninitialized uninitialized = Unit {0}
  IsUninitialized (initialized s) = ⊥

  -- What an open makes of the state, with `n` connections counted.
  abbrev pub From : VmoFileState V → ℕ → Initialized V → Type 0
  From uninitialized n t = IsSized calls laws t × (t.connection_count ≡ n)
  From (initialized s) n t = Keeps calls laws (record s { connection_count = n }) t

  abbrev pub IsFrom : VmoFileState V → VmoFileState V → Type 0
  IsFrom old uninitialized = IsUninitialized old
  IsFrom old (initialized t) = From old (count_of old) t

  abbrev pub Opens : VmoFileState V → VmoFileState V → Opened → Type 0
  Opens old state (refused e) = IsFrom old state
  Opens old uninitialized (connected c) = ⊥
  Opens old uninitialized abandoned = ⊥
  Opens old (initialized t) (connected c) = From old ((count_of old + 1) % 2 ^ 64) t × (c.seek ≡ 0)
  Opens old (initialized t) abandoned = From old ((count_of old + 1) % 2 ^ 64) t

  grown-IsFrom :
      (new : NewVmo V) (vmo : V) (r : Result ℕ)
      → calls.get_size vmo ≡ r
      → new.size < size_limit
      → IsFrom uninitialized (grown calls new vmo r).0
  unfolding grown
  grown-IsFrom new vmo (err e) h lt = tt
  grown-IsFrom new vmo (ok n) h lt = (record { known = h; short = lt }, refl)

  recover-IsFrom :
      (new : NewVmo V) (vmo_size : ℕ) (r : Result (Unit {0}))
      → calls.get_size new.vmo ≡ ok vmo_size
      → (calls.set_size new.vmo new.size).1 ≡ r
      → IsFrom uninitialized (recover calls new vmo_size ((calls.set_size new.vmo new.size).0, r)).0
  unfolding recover
  recover-IsFrom new vmo_size (ok done) known e =
      let (rounded, got, le) = laws.set_size_ok new.vmo new.size e in
      let vmo = (calls.set_size new.vmo new.size).0 in
      grown-IsFrom new vmo (calls.get_size vmo) refl
        (omega (arith, laws.get_size_bound vmo rounded got))
  recover-IsFrom new vmo_size (err unavailable) known e = (
    record {
      known = laws.set_size_err new.vmo new.size unavailable e ∙ known;
      short = laws.get_size_bound new.vmo vmo_size known;
    },
    refl,
  )
  recover-IsFrom new vmo_size (err other) known e = tt

  init_sized-IsFrom :
      (new : NewVmo V) (r : Result ℕ)
      → calls.get_size new.vmo ≡ r
      → IsFrom uninitialized (init_sized calls new r).0
  unfolding init_sized
  init_sized-IsFrom new (err e) h = tt
  init_sized-IsFrom new (ok vmo_size) h = elim (Bool-cases (ltb vmo_size new.size)) [
    | inl e ↦ rw e (recover-IsFrom new vmo_size (calls.set_size new.vmo new.size).1 h refl)
    | inr e ↦
        rw e (
          record { known = h; short = omega (tests, laws.get_size_bound new.vmo vmo_size h) },
          refl,
        )
  ]

  abbrev pub IsKept : VmoFileState V → Type 0
  IsKept uninitialized = Unit {0}
  IsKept (initialized s) = IsSized calls laws s

  pub ensure_vmo-IsFrom :
      (old : VmoFileState V) (init : Result (NewVmo V))
      → IsKept old
      → IsFrom old (ensure_vmo calls old init).0
  unfolding ensure_vmo
  ensure_vmo-IsFrom (initialized s) init v = Keeps-refl calls laws s v
  ensure_vmo-IsFrom uninitialized (err e) v = tt
  ensure_vmo-IsFrom uninitialized (ok new) v = init_sized-IsFrom new (calls.get_size new.vmo) refl

  Keeps-trans :
      (s t u : Initialized V) → Keeps calls laws s t → Keeps calls laws t u → Keeps calls laws s u
  Keeps-trans s t u a b = record {
    sized = b.sized;
    capacity_kept = b.capacity_kept ∙ a.capacity_kept;
    count_kept = b.count_kept ∙ a.count_kept;
    reach = omega (arith, a.reach, b.reach, a.capacity_kept);
  }

  From-Keeps :
      (old : VmoFileState V) (n : ℕ) (t u : Initialized V)
      → From old n t
      → Keeps calls laws t u
      → From old n u
  From-Keeps uninitialized n t u f h = (h.sized, h.count_kept ∙ f.1)
  From-Keeps (initialized s) n t u f h = Keeps-trans (record s { connection_count = n }) t u f h

  From-IsSized :
      (old : VmoFileState V) (n : ℕ) (t : Initialized V) → From old n t → IsSized calls laws t
  From-IsSized uninitialized n t f = f.0
  From-IsSized (initialized s) n t f = f.sized

  pub truncate_vmo-IsFrom :
      (old state : VmoFileState V)
      → IsFrom old state
      → IsFrom old (truncate_vmo calls state 0 0).0.0
  unfolding truncate_vmo
  truncate_vmo-IsFrom old uninitialized f = f
  truncate_vmo-IsFrom old (initialized t) f =
      let cut = truncate_initialized calls t 0 in
      clamped cut.0 cut.1 (
        From-Keeps old (count_of old) t cut.0 f
          (truncate_initialized-Keeps calls laws t 0 (From-IsSized old (count_of old) t f)))
    where
      clamped :
          (u : Initialized V) (r : Result (Unit {0}))
          → From old (count_of old) u
          → IsFrom old (clamp_seek 0 0 (initialized u, r)).0.0
      clamped u (err e) h = h
      clamped u (ok res) h = h
