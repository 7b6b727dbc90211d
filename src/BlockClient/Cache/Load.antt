-- ===== src/BlockClient/Cache/Load.antt =====
-- `read_block` and the copies out of the VMO: src/lib/storage/block_client/rust/src/cache.rs.
use fuchsia_storage.Shared.{
  ℕ, ◌+◌, ◌-◌, ◌%◌, ◌<◌, ◌≤◌, min, ◌≡◌, refl, sym, ap, ◌∙◌, Bool, true, false, none, some, lookup,
  if◌then◌else◌, ◌==◌, ==_iff, ==_self, arith, Bool-cases, inl, inr,
}
use fuchsia_storage.BlockClient.Memory.{Memory, fill, bytes_at}
use fuchsia_storage.BlockClient.Cache.{
  Device, DeviceLaws, Cache, done, block_size, put_back, get_block, load_block, read_block,
  vmo_read, read_piece,
}
use fuchsia_storage.BlockClient.Cache.Map.{lookup-put_back}
use fuchsia_storage.BlockClient.Cache.Sound.{block_of, view-eq_disk, AgreesBut}
use fuchsia_storage.BlockClient.Cache.Rooms.{fill-AgreesBut}
use fuchsia_storage.BlockClient.Cache.Blocks.{
  Ensures, >>=-Ensures, OnFailure, bytes_of, IsValid, SameBytes, IsRoom, IsHeld, Found,
}
use fuchsia_storage.BlockClient.Cache.Get.{get_block-Found}
use fuchsia_storage.BlockClient.Cache.Held.{insert_entry-IsValid, bytes_of-insert_entry, copy_out}

module _ {D : Type 0} (dev : Device D) (laws : DeviceLaws dev) where
  module _ {E : Type 0} (fails : OnFailure dev E) where
    load_block-IsHeld :
        (c c0 : Cache D) (k slot : ℕ) (mark_dirty : Bool)
        → IsRoom dev laws c c0 k slot
        → k % block_size ≡ 0
        → k < dev.device_size
        → Ensures E
            (λ c' s. IsHeld dev laws c c' k s mark_dirty)
            (load_block dev c0 k mark_dirty slot)
    unfolding load_block
    load_block-IsHeld c c0 k slot mark_dirty r al l = elim (Bool-cases answer.1) [
      | inl good ↦ rw good (record {
        valid =
            insert_entry-IsValid dev laws c c0 loaded k slot mark_dirty r refl keeps but al l
              (λ i _ p q. copied good i p q);
        entry = record { vmo_offset = slot; dirty = mark_dirty };
        there = held;
        at_slot = refl;
        marked = λ q. q;
        same = λ a p.
            bytes_of-insert_entry dev laws c c0 loaded k slot mark_dirty r refl keeps but a p
            ∙ unchanged good a p;
      })
      | inr bad ↦ rw bad (fails.read_fails c0.device size k (al, l, refl) bad)
    ]
      where
        size : ℕ
        size = min block_size (dev.device_size - k)

        answer : D × Bool × Memory
        answer = dev.read_at c0.device size k

        loaded : Cache D
        loaded = record c0 {
          device = answer.0;
          vmo = fill c0.vmo slot size answer.2;
          stats = record c0.stats { read_count = c0.stats.read_count + 1 };
        }

        keeps : (a : ℕ) → laws.bytes loaded.device a ≡ laws.bytes c0.device a
        keeps a = laws.read_keeps c0.device size k a

        but : AgreesBut slot loaded.vmo c0.vmo
        but = fill-AgreesBut c0.vmo answer.2 slot slot size r.aligned (omega arith) (omega arith)

        copied :
            answer.1 ≡ true
            → (i : ℕ) → i < block_size
            → k + i < dev.device_size
            → loaded.vmo (slot + i) ≡ laws.bytes c0.device (k + i)
        copied good i p q =
            let back : slot + i - slot ≡ i = omega arith in
            let in_range : i < size = omega arith in
            ground (
              arith,
              laws.read_done c0.device size k i good in_range,
              ap (λ (x : ℕ). answer.2 x) back,
            )

        held :
            lookup k (put_back k (record { vmo_offset = slot; dirty = mark_dirty }) c0.map)
            ≡ some (record { vmo_offset = slot; dirty = mark_dirty })
        held =
            rw (lookup-put_back k (record { vmo_offset = slot; dirty = mark_dirty }) k c0.map)
              (ground (arith, ==_self k))

        unchanged :
            answer.1 ≡ true
            → (a : ℕ) → a < dev.device_size
            → (if k == block_of a
                then loaded.vmo (slot + a % block_size)
                else bytes_of dev laws c a)
              ≡ bytes_of dev laws c a
        unchanged good a p = elim (Bool-cases (k == block_of a)) [
          | inl here ↦
              let b : k ≡ block_of a = ground (arith, ==_iff k (block_of a)) in
              let at : k + a % block_size ≡ a = omega arith in
              let absent : lookup (block_of a) c0.map ≡ none =
                ap (λ (x : ℕ). lookup x c0.map) (sym b) ∙ r.absent in
              rw here (
                copied good (a % block_size) (omega arith) (omega arith)
                ∙ ap (laws.bytes c0.device) at
                ∙ sym (view-eq_disk (laws.bytes c0.device) c0.vmo c0.map a absent)
                ∙ r.same a p)
          | inr elsewhere ↦ rw elsewhere refl
        ]

    -- `read_block` leaves every byte that the cache stands for as it was, with the block in the
    -- place that it returns.
    pub read_block-IsHeld :
        (c : Cache D) (k : ℕ) (mark_dirty : Bool)
        → IsValid dev laws c
        → k % block_size ≡ 0
        → k < dev.device_size
        → Ensures E (λ c' s. IsHeld dev laws c c' k s mark_dirty) (read_block dev c k mark_dirty)
    unfolding read_block
    read_block-IsHeld c k mark_dirty v al l =
        >>=-Ensures E (Found dev laws c k mark_dirty) (λ c' s. IsHeld dev laws c c' k s mark_dirty)
          (get_block dev c k mark_dirty)
          (λ c' found.
            if found.1 then (c', done found.0) else load_block dev c' k mark_dirty found.0)
          (get_block-Found dev laws fails c k mark_dirty v) loaded
      where
        loaded :
            (c' : Cache D) (found : ℕ × Bool)
            → Found dev laws c k mark_dirty c' found
            → Ensures E
                (λ c'' s. IsHeld dev laws c c'' k s mark_dirty)
                (if found.1 then (c', done found.0) else load_block dev c' k mark_dirty found.0)
        loaded c' (slot, true) h = h
        loaded c' (slot, false) h = load_block-IsHeld c c' k slot mark_dirty h al l

    -- What a read from a block at its place in the VMO returns.
    pub read_piece_lem :
        (c : Cache D) (k skip size : ℕ)
        → IsValid dev laws c
        → k % block_size ≡ 0
        → k < dev.device_size
        → skip + size ≤ block_size
        → k + skip + size ≤ dev.device_size
        → Ensures E
            (λ c' bytes.
              IsValid dev laws c'
              × SameBytes dev laws c c'
              × (bytes ≡ bytes_at (bytes_of dev laws c) (k + skip) size))
            (read_piece dev c k skip size)
    unfolding read_piece
    read_piece_lem c k skip size v al l fit inside =
        >>=-Ensures E (λ c' s. IsHeld dev laws c c' k s false)
          (λ c' bytes.
            IsValid dev laws c'
            × SameBytes dev laws c c'
            × (bytes ≡ bytes_at (bytes_of dev laws c) (k + skip) size))
          (read_block dev c k false) (λ c' s. vmo_read dev c' size (s + skip))
          (read_block-IsHeld c k false v al l) copied
      where
        copied :
            (c' : Cache D) (s : ℕ)
            → IsHeld dev laws c c' k s false
            → Ensures E
                (λ c'' bytes.
                  IsValid dev laws c''
                  × SameBytes dev laws c c''
                  × (bytes ≡ bytes_at (bytes_of dev laws c) (k + skip) size))
                (vmo_read dev c' size (s + skip))
        copied c' s h = copy_out dev laws E c c' k s skip size h al fit inside
