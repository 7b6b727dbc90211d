-- ===== src/BlockClient/Cache/Pieces.antt =====
-- Writes into one block of the cache: src/lib/storage/block_client/rust/src/cache.rs.
use fuchsia_storage.Shared.{
  ℕ, ◌+◌, ◌-◌, ◌%◌, ◌<◌, ◌≤◌, ◌≡◌, refl, sym, ap, ◌∙◌, Bool, true, false, List, get_or, subst,
  length, le→leb, if◌then◌else◌, ◌==◌, ==_iff, arith, Bool-cases, inl, inr,
}
use fuchsia_storage.BlockClient.Memory.{fill, contents}
use fuchsia_storage.BlockClient.Cache.{
  Device, DeviceLaws, Cache, done, block_size, vmo_size, ◌>>=◌, get_block, read_block, vmo_write,
  insert_entry,
}
use fuchsia_storage.BlockClient.Cache.Write.{write_piece, write_block}
use fuchsia_storage.BlockClient.Cache.Sound.{block_of, AgreesBut}
use fuchsia_storage.BlockClient.Cache.Rooms.{fill-AgreesBut}
use fuchsia_storage.BlockClient.Cache.Blocks.{
  Ensures, >>=-Ensures, OnFailure, bytes_of, IsValid, IsRoom, IsHeld, Found,
}
use fuchsia_storage.BlockClient.Cache.Get.{get_block-Found}
use fuchsia_storage.BlockClient.Cache.Held.{
  held_byte, held_inside, insert_entry-IsValid, bytes_of-insert_entry,
}
use fuchsia_storage.BlockClient.Cache.Load.{read_block-IsHeld}
use fuchsia_storage.BlockClient.Cache.Dirty.{dirty-IsSound, view-dirty, fill_block}

module _ {D : Type 0} (dev : Device D) (laws : DeviceLaws dev) where
  -- A write that leaves the cache standing for what it did, with the buffer in its place.
  abbrev pub Writes : Cache D → ℕ → List ℕ → Cache D → Unit {0} → Type 0
  Writes c start buf c' _ =
      IsValid dev laws c'
      × ((a : ℕ)
          → a < dev.device_size
          → bytes_of dev laws c' a ≡ fill (bytes_of dev laws c) start (length buf) (contents buf) a)

  module _ (E : Type 0) (c c' : Cache D) (k s skip : ℕ) (buf : List ℕ)
      (h : IsHeld dev laws c c' k s true) (al : k % block_size ≡ 0)
      (fit : skip + length buf ≤ block_size) where
    written : Cache D
    written = record c' { vmo = fill c'.vmo (s + skip) (length buf) (contents buf) }

    held_aligned : s % block_size ≡ 0
    held_aligned =
        let place = h.valid.0.placed k h.entry h.there in omega (arith, place.2, h.at_slot)

    but : AgreesBut h.entry.vmo_offset (fill c'.vmo (s + skip) (length buf) (contents buf)) c'.vmo
    but =
        let e = h.at_slot in
        let z = held_aligned in
        fill-AgreesBut c'.vmo (contents buf) h.entry.vmo_offset (s + skip) (length buf)
          (omega arith) (omega arith) (omega arith)

    written-Writes : Writes c (k + skip) buf written tt
    unfolding written
    written-Writes = (
      (
        dirty-IsSound dev.device_size (length c'.map) (laws.bytes c'.device) c'.vmo written.vmo
            c'.map k h.entry h.there but h.valid.0 (h.marked refl),
        h.valid.1,
      ),
      λ a l.
          view-dirty dev.device_size (length c'.map) (laws.bytes c'.device) c'.vmo written.vmo
            c'.map k h.entry h.there but h.valid.0 a
          ∙ changed a l,
    )
      where
        changed :
            (a : ℕ)
            → a < dev.device_size
            → (if k == block_of a
                then written.vmo (h.entry.vmo_offset + a % block_size)
                else bytes_of dev laws c' a)
              ≡ fill (bytes_of dev laws c) (k + skip) (length buf) (contents buf) a
        changed a l = elim (Bool-cases (k == block_of a)) [
          | inl here ↦
              let b : k ≡ block_of a = (==_iff k (block_of a)).0 here in
              let at : k + a % block_size ≡ a = omega arith in
              let byte : c'.vmo (s + a % block_size) ≡ bytes_of dev laws c a =
                held_byte dev laws c c' k s (a % block_size) true h al (omega arith) (omega arith)
                ∙ ap (bytes_of dev laws c) at in
              let block =
                fill_block c'.vmo (bytes_of dev laws c) (contents buf) s k skip (length buf) a al
                  fit byte in
              rw here
                (ap (λ (x : ℕ). written.vmo (x + a % block_size)) h.at_slot ∙ only_true here block)
          | inr elsewhere ↦ rw elsewhere (h.same a l ∙ untouched a elsewhere)
        ]
          where
            only_true :
                (k == block_of a) ≡ true
                → (if k == block_of a
                    then written.vmo (s + a % block_size)
                    else bytes_of dev laws c a)
                  ≡ fill (bytes_of dev laws c) (k + skip) (length buf) (contents buf) a
                → written.vmo (s + a % block_size)
                  ≡ fill (bytes_of dev laws c) (k + skip) (length buf) (contents buf) a
            only_true q p =
                sym (
                  ap
                    (λ (b : Bool).
                      if b then written.vmo (s + a % block_size) else bytes_of dev laws c a)
                    q)
                ∙ p

            untouched :
                (a : ℕ)
                → (k == block_of a) ≡ false
                → bytes_of dev laws c a
                  ≡ fill (bytes_of dev laws c) (k + skip) (length buf) (contents buf) a
            untouched a q = ground (arith, outside a q)
              where
                outside :
                    (a : ℕ)
                    → (k == block_of a) ≡ false
                    → k + skip ≤ a
                    → a < k + skip + length buf
                    → ⊥
                outside a q p r =
                    let e : k ≡ block_of a = omega arith in ground (arith, ==_iff k (block_of a))

    copy_in : Ensures E (Writes c (k + skip) buf) (vmo_write dev c' buf (s + skip))
    unfolding vmo_write written
    copy_in =
        let room = held_inside dev laws c c' k s true h in
        rw (le→leb (s + skip + length buf) vmo_size (omega arith)) written-Writes

  -- A whole block is written to a place that was free, and comes in dirty.
  fresh-Writes :
      (E : Type 0) (c c' : Cache D) (k s : ℕ) (buf : List ℕ)
      → IsRoom dev laws c c' k s
      → k % block_size ≡ 0
      → k < dev.device_size
      → length buf ≡ block_size
      → Ensures E
          (Writes c k buf)
          (vmo_write dev c' buf s >>= λ c'' _. (insert_entry dev c'' k s true, done tt))
  unfolding vmo_write ◌>>=◌
  fresh-Writes E c c' k s buf r al l whole =
      let free = r.aligned in
      let low = r.inside in
      let few = r.below in
      rw (le→leb (s + length buf) vmo_size (omega arith)) (
        insert_entry-IsValid dev laws c c' c1 k s true r refl (λ a. refl) but al l (λ i q. cc),
        λ a p.
            bytes_of-insert_entry dev laws c c' c1 k s true r refl (λ a. refl) but a p ∙ block a p,
      )
    where
      c1 : Cache D
      c1 = record c' { vmo = fill c'.vmo s (length buf) (contents buf) }

      but : AgreesBut s c1.vmo c'.vmo
      but =
          let free = r.aligned in
          fill-AgreesBut c'.vmo (contents buf) s s (length buf) free (omega arith) (omega arith)

      block :
          (a : ℕ)
          → a < dev.device_size
          → (if k == block_of a then c1.vmo (s + a % block_size) else bytes_of dev laws c a)
            ≡ fill (bytes_of dev laws c) k (length buf) (contents buf) a
      block a p = ground (arith, ==_iff k (block_of a), position, outside, inside)
        where
          position : k ≡ block_of a → get_or buf (s + a % block_size - s) 0 ≡ get_or buf (a - k) 0
          position q =
              let e : s + a % block_size - s ≡ a - k = omega arith in
              ap (λ (i : ℕ). get_or buf i 0) e

          outside : (k ≡ block_of a → ⊥) → k ≤ a → a < k + length buf → ⊥
          outside ne x y = ne (omega arith)

          inside :
              k ≡ block_of a
              → (k ≤ a) × (a < k + length buf) × (s + a % block_size < s + length buf)
          inside q = (omega arith, omega arith, omega arith)

  module _ {E : Type 0} (fails : OnFailure dev E) where
    pub write_piece-Writes :
        (c : Cache D) (k skip : ℕ) (buf : List ℕ)
        → IsValid dev laws c
        → k % block_size ≡ 0
        → k < dev.device_size
        → skip + length buf ≤ block_size
        → Ensures E (Writes c (k + skip) buf) (write_piece dev c k skip buf)
    unfolding write_piece
    write_piece-Writes c k skip buf v al l fit =
        >>=-Ensures E (λ c' s. IsHeld dev laws c c' k s true) (Writes c (k + skip) buf)
          (read_block dev c k true) (λ c' s. vmo_write dev c' buf (s + skip))
          (read_block-IsHeld dev laws fails c k true v al l)
          (λ c' s h. copy_in E c c' k s skip buf h al fit)

    pub write_block-Writes :
        (c : Cache D) (k : ℕ) (buf : List ℕ)
        → IsValid dev laws c
        → k % block_size ≡ 0
        → k < dev.device_size
        → length buf ≡ block_size
        → Ensures E (Writes c k buf) (write_block dev c k buf)
    unfolding write_block
    write_block-Writes c k buf v al l whole =
        >>=-Ensures E (Found dev laws c k true) (Writes c k buf) (get_block dev c k true)
          (λ c' found. vmo_write dev c' buf found.0 >>= λ c'' _.
            (if found.1 then c'' else insert_entry dev c'' k found.0 true, done tt))
          (get_block-Found dev laws fails c k true v) stored
      where
        held :
            (c' : Cache D) (s : ℕ)
            → IsHeld dev laws c c' k s true
            → Ensures E (Writes c k buf) (vmo_write dev c' buf s >>= λ c'' _. (c'', done tt))
        held c' s h =
            let z : k + 0 ≡ k = omega arith in
            let y : s + 0 ≡ s = omega arith in
            let put = copy_in E c c' k s 0 buf h al (omega arith) in
            >>=-Ensures E (Writes c k buf) (Writes c k buf) (vmo_write dev c' buf s)
              (λ c'' _. (c'', done tt))
              (subst (λ (x : ℕ). Ensures E (Writes c k buf) (vmo_write dev c' buf x)) y
                (subst (λ (x : ℕ). Ensures E (Writes c x buf) (vmo_write dev c' buf (s + 0))) z
                  put))
              (λ c'' u w. w)

        stored :
            (c' : Cache D) (found : ℕ × Bool)
            → Found dev laws c k true c' found
            → Ensures E (Writes c k buf) (
                vmo_write dev c' buf found.0 >>= λ c'' _.
                (if found.1 then c'' else insert_entry dev c'' k found.0 true, done tt))
        stored c' (s, true) h = held c' s h
        stored c' (s, false) r = fresh-Writes E c c' k s buf r al l whole
