-- ===== src/BlockClient/Cache/Held.antt =====
-- Blocks that the cache holds: src/lib/storage/block_client/rust/src/cache.rs.
use fuchsia_storage.Shared.{
  ℕ, suc, ◌+◌, ◌%◌, ◌<◌, ◌≤◌, ◌≡◌, refl, sym, ap, ◌∙◌, fun_ext, Bool, false, length, lookup,
  if◌then◌else◌, ◌==◌, arith, Bool-cases, inl, inr, le→leb,
}
use fuchsia_storage.BlockClient.Memory.{bytes_at, bytes_at_cong}
use fuchsia_storage.BlockClient.Cache.{
  Device, DeviceLaws, Cache, CacheEntry, block_size, vmo_size, insert_entry, vmo_read,
}
use fuchsia_storage.BlockClient.Cache.Map.{length-put_back-none}
use fuchsia_storage.BlockClient.Cache.Sound.{
  block_of, view-eq_vmo, AgreesBut, vmo-IsSound, view-vmo, view-put_back,
}
use fuchsia_storage.BlockClient.Cache.Rooms.{insert-IsSound}
use fuchsia_storage.BlockClient.Cache.Blocks.{Ensures, bytes_of, IsValid, SameBytes, IsRoom, IsHeld}

module _ {D : Type 0} (dev : Device D) (laws : DeviceLaws dev) where
  -- A block is put into its place with the bytes that the VMO then has there, which are those of
  -- the device, unless the block is dirty.
  pub insert_entry-IsValid :
      (c c0 c1 : Cache D) (k slot : ℕ) (dirty : Bool)
      → IsRoom dev laws c c0 k slot
      → c1.map ≡ c0.map
      → ((a : ℕ) → laws.bytes c1.device a ≡ laws.bytes c0.device a)
      → AgreesBut slot c1.vmo c0.vmo
      → k % block_size ≡ 0
      → k < dev.device_size
      → ((i : ℕ)
          → dirty ≡ false
          → i < block_size
          → k + i < dev.device_size
          → c1.vmo (slot + i) ≡ laws.bytes c0.device (k + i))
      → IsValid dev laws (insert_entry dev c1 k slot dirty)
  unfolding insert_entry
  insert_entry-IsValid c c0 c1 k slot dirty r em ed ev al l agrees =
      let size = dev.device_size in
      let n = suc (length c0.map) in
      let disk = laws.bytes c0.device in
      let eq : laws.bytes c1.device ≡ disk = fun_ext ed in
      let e : CacheEntry = record { vmo_offset = slot; dirty = dirty } in
      let h = vmo-IsSound size n disk c0.vmo c0.map slot c1.vmo r.free ev r.holds in
      let longer = length-put_back-none k e c0.map r.absent in
      rw (em, eq, longer)
        (
          insert-IsSound size n disk c1.vmo c0.map k e (al, l, r.aligned, r.inside) r.free r.absent
              h agrees,
          r.below,
        )

  -- The bytes that the cache then stands for: those of the place in the block that came in, and
  -- elsewhere what they were.
  pub bytes_of-insert_entry :
      (c c0 c1 : Cache D) (k slot : ℕ) (dirty : Bool)
      → IsRoom dev laws c c0 k slot
      → c1.map ≡ c0.map
      → ((a : ℕ) → laws.bytes c1.device a ≡ laws.bytes c0.device a)
      → AgreesBut slot c1.vmo c0.vmo
      → (a : ℕ) → a < dev.device_size
      → bytes_of dev laws (insert_entry dev c1 k slot dirty) a
        ≡ (if k == block_of a then c1.vmo (slot + a % block_size) else bytes_of dev laws c a)
  unfolding insert_entry
  bytes_of-insert_entry c c0 c1 k slot dirty r em ed ev a l =
      let size = dev.device_size in
      let n = suc (length c0.map) in
      let disk = laws.bytes c0.device in
      let eq : laws.bytes c1.device ≡ disk = fun_ext ed in
      let e : CacheEntry = record { vmo_offset = slot; dirty = dirty } in
      let kept = view-vmo size n disk c0.vmo c0.map slot c1.vmo r.free ev r.holds a in
      rw (em, eq, view-put_back size n disk c1.vmo c0.map k e a)
        (elim (Bool-cases (k == block_of a)) [
          | inl here ↦ rw here refl
          | inr elsewhere ↦ rw elsewhere (kept ∙ r.same a l)
        ])

  -- What a held block has at its place in the VMO.
  pub held_byte :
      (c c' : Cache D) (k s i : ℕ) (mark_dirty : Bool)
      → IsHeld dev laws c c' k s mark_dirty
      → k % block_size ≡ 0
      → i < block_size
      → k + i < dev.device_size
      → c'.vmo (s + i) ≡ bytes_of dev laws c (k + i)
  held_byte c c' k s i mark_dirty h al l q =
      let b : block_of (k + i) ≡ k = omega arith in
      let o : (k + i) % block_size ≡ i = omega arith in
      let p = ap (λ (x : ℕ). lookup x c'.map) b ∙ h.there in
      ap (λ (x : ℕ). c'.vmo (x + i)) (sym h.at_slot)
      ∙ ap (λ (x : ℕ). c'.vmo (h.entry.vmo_offset + x)) (sym o)
      ∙ sym (view-eq_vmo (laws.bytes c'.device) c'.vmo c'.map h.entry (k + i) p)
      ∙ h.same (k + i) q

  -- A held block lies within the VMO.
  pub held_inside :
      (c c' : Cache D) (k s : ℕ) (mark_dirty : Bool)
      → IsHeld dev laws c c' k s mark_dirty
      → s + block_size ≤ vmo_size
  held_inside c c' k s mark_dirty h =
      let place = h.valid.0.placed k h.entry h.there in omega (arith, place, h.valid.1, h.at_slot)

  pub copy_out :
      (E : Type 0) (c c' : Cache D) (k s skip size : ℕ)
      → IsHeld dev laws c c' k s false
      → k % block_size ≡ 0
      → skip + size ≤ block_size
      → k + skip + size ≤ dev.device_size
      → Ensures E
          (λ c'' bytes.
            IsValid dev laws c''
            × SameBytes dev laws c c''
            × (bytes ≡ bytes_at (bytes_of dev laws c) (k + skip) size))
          (vmo_read dev c' size (s + skip))
  unfolding vmo_read
  copy_out E c c' k s skip size h al fit inside =
      let room = held_inside c c' k s false h in
      rw (le→leb (s + skip + size) vmo_size (omega arith)) (
        h.valid,
        h.same,
        bytes_at_cong c'.vmo (bytes_of dev laws c) (s + skip) (k + skip) size (λ i p.
            let e : s + skip + i ≡ s + (skip + i) = omega arith in
            let f : k + (skip + i) ≡ k + skip + i = omega arith in
            ap c'.vmo e
            ∙ held_byte c c' k s (skip + i) false h al (omega arith) (omega arith)
            ∙ ap (bytes_of dev laws c) f),
      )
