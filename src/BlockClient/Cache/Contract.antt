-- ===== src/BlockClient/Cache/Contract.antt =====
-- What the block cache promises its clients: src/lib/storage/block_client/rust/src/cache.rs.
use native.Mathlib.Nat.{dvd_trans, dvd-sub, dvd_of_mod-eq-zero, mod-eq-zero_of_dvd}
use fuchsia_storage.Shared.{
  ◌%◌, leb, ◌⊎◌, inl, inr, Bool-cases, tests, ℕ, ◌+◌, ◌*◌, ◌-◌, ◌≤◌, ◌<◌, ◌≡◌, refl, ap, subst, ◌∙◌,
  Bool, true, false, List, ◌∷◌, length, lookup, none, min, arith,
}
use fuchsia_storage.BlockClient.Memory.{
  Memory, fill, contents, bytes_at, bytes_at_cong, bytes_at-fill,
}
use fuchsia_storage.BlockClient.Cache.{
  Device, DeviceLaws, Cache, CacheEntry, Outcome, done, failed, device_error, block_size, ◌>>=◌,
  read_at, get_block, find_block, make_room, write_back, evict,
}
use fuchsia_storage.BlockClient.Cache.Write.{write_at}
use fuchsia_storage.BlockClient.Cache.Stream.{flush, drop_cache}
use fuchsia_storage.BlockClient.Cache.Blocks.{
  Ensures, OnFailure, IsBlockCall, bytes_of, IsValid, SameBytes,
}
use fuchsia_storage.BlockClient.Cache.ReadParts.{Reads}
use fuchsia_storage.BlockClient.Cache.Reads.{read_at-Reads}
use fuchsia_storage.BlockClient.Cache.Pieces.{Writes}
use fuchsia_storage.BlockClient.Cache.Writes.{write_at-Writes}
use fuchsia_storage.BlockClient.Cache.Flush.{Flushes, flush-Flushes}

module _ {D A : Type 0} (P : Cache D → A → Type 0) where
  Ensures-done :
      (E : Type 0) (r : Cache D × Outcome A) (c' : Cache D) (a : A)
      → Ensures E P r
      → r ≡ (c', done a)
      → P c' a
  Ensures-done E r c' a h e = subst (Ensures E P) e h

  Ensures-total :
      (r : Cache D × Outcome A)
      → Ensures ⊥ P r
      → (c' : Cache D) × (a : A) × (r ≡ (c', done a)) × P c' a
  Ensures-total (c, done a) h = (c, a, refl, h)
  Ensures-total (c, failed e) h = absurd h

-- What a device of blocks of `unit` bytes does not refuse: whole blocks that lie on the device, and
-- no more of them at once than a block of the cache has.
abbrev pub IsRequest : {D : Type 0} → ℕ → Device D → ℕ → ℕ → Type 0
IsRequest unit dev size offset =
    (size % unit ≡ 0)
    × (offset % unit ≡ 0)
    × (0 < size)
    × (size ≤ block_size)
    × (offset + size ≤ dev.device_size)

-- A device of blocks of `unit` bytes, a part of the cache's block, on which no such request fails.
pub record IsReliable {D : Type 0} (unit : ℕ) (dev : Device D) : Type 0 where
  pub divides : block_size % unit ≡ 0
  pub whole : dev.device_size % unit ≡ 0
  pub writes :
      (d : D) (source : Memory) (size offset : ℕ)
      → IsRequest unit dev size offset
      → (dev.write_at d source size offset).1 ≡ true
  pub reads :
      (d : D) (size offset : ℕ)
      → IsRequest unit dev size offset
      → (dev.read_at d size offset).1 ≡ true

module _ {D : Type 0} (unit : ℕ) (dev : Device D) (reliable : IsReliable unit dev) where
  -- Every call that the cache makes is such a request.
  IsBlockCall-IsRequest :
      (size offset : ℕ) → IsBlockCall dev size offset → IsRequest unit dev size offset
  IsBlockCall-IsRequest size offset (al, inside, e) =
      let part = dvd_of_mod-eq-zero unit reliable.divides in
      let at = dvd_trans unit part (dvd_of_mod-eq-zero block_size al) in
      let left = dvd-sub unit (dvd_of_mod-eq-zero unit reliable.whole) at in
      let units : size % unit ≡ 0 = elim (either_min block_size (dev.device_size - offset)) [
        | inl block ↦ ap (λ (x : ℕ). x % unit) (e ∙ block) ∙ reliable.divides
        | inr rest ↦ ap (λ (x : ℕ). x % unit) (e ∙ rest) ∙ mod-eq-zero_of_dvd unit left
      ] in
      (units, mod-eq-zero_of_dvd unit at, omega arith, omega arith, omega arith)
    where
      either_min : (a b : ℕ) → (min a b ≡ a) ⊎ (min a b ≡ b)
      either_min a b = elim (Bool-cases (leb a b)) [
        | inl le ↦ inl (omega tests)
        | inr gt ↦ inr (omega tests)
      ]

  no_failure : OnFailure dev ⊥
  no_failure = record {
    write_fails = λ d source size offset call bad.
        let good = reliable.writes d source size offset (IsBlockCall-IsRequest size offset call) in
        cc;
    read_fails = λ d size offset call bad.
        let good = reliable.reads d size offset (IsBlockCall-IsRequest size offset call) in cc;
  }

module _ {D : Type 0} (dev : Device D) (laws : DeviceLaws dev) where
  any_failure : OnFailure dev (Unit {0})
  any_failure = record { write_fails = λ d f n o call h. tt; read_fails = λ d n o call h. tt }

  -- A read within the device that succeeds, from a cache that is sound, returns the bytes that the
  -- cache stands for; it leaves the cache sound and standing for the same bytes.
  pub read_at_refines :
      (c c' : Cache D) (size offset : ℕ) (bytes : List ℕ)
      → IsValid dev laws c
      → offset + size ≤ dev.device_size
      → read_at dev c size offset ≡ (c', done bytes)
      → IsValid dev laws c'
        × SameBytes dev laws c c'
        × (bytes ≡ bytes_at (bytes_of dev laws c) offset size)
  read_at_refines c c' size offset bytes v l =
      Ensures-done (Reads dev laws c offset size) Unit (read_at dev c size offset) c' bytes
        (read_at-Reads dev laws any_failure c size offset v l)

  -- A write within the device that succeeds, on a cache that is sound, leaves it sound and standing
  -- for the bytes that it did, but for the buffer's in their place.
  pub write_at_refines :
      (c c' : Cache D) (buf : List ℕ) (offset : ℕ)
      → IsValid dev laws c
      → offset + length buf ≤ dev.device_size
      → write_at dev c buf offset ≡ (c', done tt)
      → IsValid dev laws c'
        × ((a : ℕ)
            → a < dev.device_size
            → bytes_of dev laws c' a
              ≡ fill (bytes_of dev laws c) offset (length buf) (contents buf) a)
  write_at_refines c c' buf offset v l =
      Ensures-done (Writes dev laws c offset buf) Unit (write_at dev c buf offset) c' tt
        (write_at-Writes dev laws any_failure c buf offset v l)

  -- A flush that succeeds, of a cache that is sound, leaves it sound and standing for the same
  -- bytes, and the device then stores all of them.
  pub flush_refines :
      (c c' : Cache D)
      → IsValid dev laws c
      → flush dev c ≡ (c', done tt)
      → IsValid dev laws c'
        × SameBytes dev laws c c'
        × ((a : ℕ) → a < dev.device_size → laws.bytes c'.device a ≡ bytes_of dev laws c a)
  flush_refines c c' v =
      Ensures-done (Flushes dev laws c) Unit (flush dev c) c' tt
        (flush-Flushes dev laws any_failure c v)

  -- On a device that serves whole blocks of its own, up to 8192 bytes at once and within its size,
  -- and may refuse all else, a read within the device from a sound cache ends with no error, for
  -- any offset and length and any state of the cache.
  pub read_at_total :
      (unit : ℕ) (c : Cache D) (size offset : ℕ)
      → IsReliable unit dev
      → IsValid dev laws c
      → offset + size ≤ dev.device_size
      → (c' : Cache D) × (bytes : List ℕ) × (read_at dev c size offset ≡ (c', done bytes))
  read_at_total unit c size offset reliable v l =
      let (c', bytes, e, _) =
        Ensures-total (Reads dev laws c offset size) (read_at dev c size offset)
          (read_at-Reads dev laws (no_failure unit dev reliable) c size offset v l) in
      (c', bytes, e)

  -- So does a write.
  pub write_at_total :
      (unit : ℕ) (c : Cache D) (buf : List ℕ) (offset : ℕ)
      → IsReliable unit dev
      → IsValid dev laws c
      → offset + length buf ≤ dev.device_size
      → (c' : Cache D) × (write_at dev c buf offset ≡ (c', done tt))
        × IsValid dev laws c'
        × ((a : ℕ)
            → a < dev.device_size
            → bytes_of dev laws c' a
              ≡ fill (bytes_of dev laws c) offset (length buf) (contents buf) a)
  write_at_total unit c buf offset reliable v l =
      let (c', u, e, (w, b)) =
        Ensures-total (Writes dev laws c offset buf) (write_at dev c buf offset)
          (write_at-Writes dev laws (no_failure unit dev reliable) c buf offset v l) in
      (c', e, w, b)

  -- What a write that succeeds has written, on a sound cache and within the device, is what a read
  -- of the same range that succeeds then returns, whichever blocks the two evict.
  pub read_at-write_at :
      (c c1 c2 : Cache D) (buf bytes : List ℕ) (offset : ℕ)
      → IsValid dev laws c
      → offset + length buf ≤ dev.device_size
      → write_at dev c buf offset ≡ (c1, done tt)
      → read_at dev c1 (length buf) offset ≡ (c2, done bytes)
      → bytes ≡ buf
  read_at-write_at c c1 c2 buf bytes offset v l w r =
      let (v1, b1) = write_at_refines c c1 buf offset v l w in
      let (v2, _, e) = read_at_refines c1 c2 (length buf) offset bytes v1 l r in
      e
      ∙ bytes_at_cong (bytes_of dev laws c1)
          (fill (bytes_of dev laws c) offset (length buf) (contents buf)) offset offset (length buf)
          (λ i p. b1 (offset + i) (omega arith))
      ∙ bytes_at-fill (bytes_of dev laws c) offset buf

  -- On a device that serves whole blocks of its own, up to 8192 bytes at once and within its size,
  -- and may refuse all else, bytes written within the device through a sound cache are on the
  -- device once the cache is dropped, and every other byte is there as the cache stood for it.
  pub drop_cache-write_at :
      (unit : ℕ) (c : Cache D) (buf : List ℕ) (offset : ℕ)
      → IsReliable unit dev
      → IsValid dev laws c
      → offset + length buf ≤ dev.device_size
      → (a : ℕ) → a < dev.device_size
      → laws.bytes (drop_cache dev (write_at dev c buf offset).0) a
        ≡ fill (bytes_of dev laws c) offset (length buf) (contents buf) a
  unfolding drop_cache
  drop_cache-write_at unit c buf offset reliable v l a p =
      let (c1, e, v1, b1) = write_at_total unit c buf offset reliable v l in
      let (c2, u, f, (v2, _, b2)) =
        Ensures-total (Flushes dev laws c1) (flush dev c1)
          (flush-Flushes dev laws (no_failure unit dev reliable) c1 v1) in
      let state : (write_at dev c buf offset).0 ≡ c1 = ap (λ (r : Cache D × Outcome Unit). r.0) e in
      ap (λ (x : Cache D). laws.bytes (flush dev x).0.device a) state
      ∙ ap (λ (r : Cache D × Outcome Unit). laws.bytes r.0.device a) f
      ∙ b2 a p
      ∙ b1 a p

  -- Where a sound cache holds 32 blocks, the least recently used one is dirty and the device fails
  -- to write it, `get_block` fails, the dirty block is no longer in the cache, and the place for
  -- the next block is the last of the VMO.
  pub get_block_failed_evict :
      (c : Cache D) (offset k : ℕ) (mark_dirty : Bool) (e : CacheEntry)
      (rest : List (ℕ × CacheEntry))
      → IsValid dev laws c
      → c.map ≡ (k, e) ∷ rest
      → length rest ≡ 31
      → e.dirty ≡ true
      → lookup offset c.map ≡ none
      → (dev.write_at c.device
          (λ i. c.vmo (e.vmo_offset + i))
          (min block_size (dev.device_size - k))
          k).1
        ≡ false
      → ((get_block dev c offset mark_dirty).1 ≡ failed device_error)
        × (lookup k (get_block dev c offset mark_dirty).0.map ≡ none)
        × ((make_room dev (get_block dev c offset mark_dirty).0).1 ≡ done (31 * block_size, false))
  unfolding get_block find_block make_room evict write_back ◌>>=◌
  get_block_failed_evict c offset k mark_dirty e rest v em full dirty absent fails =
      let d = v.0.distinct in rw (absent, em, full) (rw (dirty, fails) (ground arith))
