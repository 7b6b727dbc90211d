-- ===== src/BlockClient/Cache/Get.antt =====
-- `get_block` of the block cache: src/lib/storage/block_client/rust/src/cache.rs.
use fuchsia_storage.Shared.{
  ℕ, suc, ◌+◌, ◌-◌, ◌*◌, ◌%◌, ◌<◌, ◌≤◌, min, ◌≡◌, ◌≢◌, refl, sym, ap, ◌∙◌, Bool, false, [], ◌∷◌,
  ◌||◌, none, some, length, lookup, ltb, ◌==◌, ==_iff, arith, Bool-cases, Option-cases, inl, inr,
  tests, ==_self,
}
use fuchsia_storage.BlockClient.Memory.{Memory, fill}
use fuchsia_storage.BlockClient.Cache.{
  Device, DeviceLaws, Cache, CacheEntry, done, block_size, block_count, write_back, put_back,
  cache_hit, evict, make_room, find_block, get_block,
}
use fuchsia_storage.BlockClient.Cache.Map.{Entries, lookup-put_back, length-put_back-some}
use fuchsia_storage.BlockClient.Cache.Sound.{
  block_of, view-eq_vmo, IsSound, IsSound-grow, disk-IsSound, put_back-IsSound, view-put_back,
}
use fuchsia_storage.BlockClient.Cache.Rooms.{
  pop-IsSound, pop-IsFree, pop-IsPlaced, pop_clean, view-pop,
}
use fuchsia_storage.BlockClient.Cache.Blocks.{
  Ensures, >>=-Ensures, OnFailure, bytes_of, IsValid, IsRoom, Found,
}

module _ {D : Type 0} (dev : Device D) (laws : DeviceLaws dev) where
  -- A block that was written back: the device has its bytes, and the cache is as it was.
  pub record IsWritten (c c' : Cache D) (k : ℕ) (e : CacheEntry) : Type 0 where
    pub same_map : c'.map ≡ c.map
    pub same_vmo : c'.vmo ≡ c.vmo
    pub stored :
        (a : ℕ)
        → laws.bytes c'.device a
          ≡ fill
              (laws.bytes c.device)
              k
              (min block_size (dev.device_size - k))
              (λ i. c.vmo (e.vmo_offset + i))
              a

  module _ (c c' : Cache D) (k : ℕ) (e : CacheEntry) (al : k % block_size ≡ 0)
      (w : IsWritten c c' k e) where
    -- The device has changed in that block only, and has the bytes of the VMO there.
    pub others_same : (a : ℕ) → block_of a ≢ k → laws.bytes c'.device a ≡ laws.bytes c.device a
    others_same a ne = w.stored a ∙ ground (arith, outside)
      where
        outside : k ≤ a → a < k + min block_size (dev.device_size - k) → ⊥
        outside p q = ne (omega arith)

    pub block_stored :
        (i : ℕ)
        → i < block_size
        → k + i < dev.device_size
        → laws.bytes c'.device (k + i) ≡ c.vmo (e.vmo_offset + i)
    block_stored i l s =
        let r : k + i - k ≡ i = omega arith in
        w.stored (k + i) ∙ ground (arith, ap (λ (x : ℕ). c.vmo (e.vmo_offset + x)) r)

  module _ {E : Type 0} (fails : OnFailure dev E) where
    pub write_back-IsWritten :
        (c : Cache D) (k : ℕ) (e : CacheEntry)
        → k % block_size ≡ 0
        → k < dev.device_size
        → Ensures E (λ c' _. IsWritten c c' k e) (write_back dev c k e)
    unfolding write_back
    write_back-IsWritten c k e al l = elim (Bool-cases sent.1) [
      | inl good ↦ rw good (record {
        same_map = refl;
        same_vmo = refl;
        stored = λ a. laws.write_done c.device source size k a good;
      })
      | inr bad ↦ rw bad (fails.write_fails c.device source size k (al, l, refl) bad)
    ]
      where
        size : ℕ
        size = min block_size (dev.device_size - k)

        source : Memory
        source = λ i. c.vmo (e.vmo_offset + i)

        sent : D × Bool
        sent = dev.write_at c.device source size k

    -- What the write back of the first entry leaves a place for.
    popped-IsRoom :
        (c c' : Cache D) (k j : ℕ) (e : CacheEntry) (rest : Entries)
        → IsSound dev.device_size block_count (laws.bytes c.device) c.vmo ((j, e) ∷ rest)
        → suc (length rest) ≡ block_count
        → lookup k ((j, e) ∷ rest) ≡ none
        → c'.map ≡ rest
        → c'.vmo ≡ c.vmo
        → ((a : ℕ) → block_of a ≢ j → laws.bytes c'.device a ≡ laws.bytes c.device a)
        → ((i : ℕ)
            → i < block_size
            → j + i < dev.device_size
            → laws.bytes c'.device (j + i) ≡ c.vmo (e.vmo_offset + i))
        → IsRoom dev laws (record c { map = (j, e) ∷ rest }) c' k e.vmo_offset
    unfolding lookup
    popped-IsRoom c c' k j e rest h full absent em ev others stored =
        let size = dev.device_size in
        let disk = laws.bytes c.device in
        let disk' = laws.bytes c'.device in
        let place = pop-IsPlaced size block_count disk c.vmo j e rest h in
        let less = pop-IsSound size block_count disk c.vmo j e rest h in
        let kept =
          disk-IsSound size block_count disk c.vmo rest j disk' place.0 h.distinct.0 others less in
        record {
          holds = rw (em, ev, full) kept;
          below = rw em (omega arith);
          free = rw em (pop-IsFree size block_count disk c.vmo j e rest h);
          aligned = place.2;
          inside = rw (em, full) place.3;
          absent = rw em (ground arith);
          same = λ a l.
              rw (em, ev) (view-pop size block_count disk c.vmo j e rest h disk' a l stored others);
        }

    evict-Found :
        (c : Cache D) (k : ℕ) (mark_dirty : Bool) (m : Entries)
        → IsSound dev.device_size block_count (laws.bytes c.device) c.vmo m
        → length m ≡ block_count
        → lookup k m ≡ none
        → Ensures E (Found dev laws (record c { map = m }) k mark_dirty) (evict dev c m)
    unfolding evict
    evict-Found c k mark_dirty [] h full absent = absurd (omega arith)
    evict-Found c k mark_dirty ((j, e) ∷ rest) h full absent = elim (Bool-cases e.dirty) [
      | inl dirty ↦ simp dirty (
          >>=-Ensures E (λ c' _. IsWritten (record c { map = rest }) c' j e)
            (Found dev laws (record c { map = (j, e) ∷ rest }) k mark_dirty)
            (write_back dev (record c { map = rest }) j e)
            (λ c' _. (c', done (e.vmo_offset, false)))
            (write_back-IsWritten (record c { map = rest }) j e aligned
              (pop-IsPlaced size block_count disk c.vmo j e rest h).1)
            (λ c' _ w.
              popped-IsRoom c c' k j e rest h (omega arith) absent w.same_map w.same_vmo
                (others_same (record c { map = rest }) c' j e aligned w)
                (block_stored (record c { map = rest }) c' j e aligned w)))
      | inr clean ↦ simp clean (
          popped-IsRoom c (record c { map = rest }) k j e rest h (omega arith) absent refl refl
            (λ a ne. refl)
            (λ i l s. sym (pop_clean size block_count disk c.vmo j e rest h i clean l s)))
    ]
      where
        size : ℕ
        size = dev.device_size

        disk : Memory
        disk = laws.bytes c.device

        aligned : j % block_size ≡ 0
        aligned = (pop-IsPlaced size block_count disk c.vmo j e rest h).0

    -- A cache that is not full gives its next place.
    next-IsRoom :
        (c : Cache D) (k : ℕ)
        → IsValid dev laws c
        → length c.map < block_count
        → lookup k c.map ≡ none
        → IsRoom dev laws c c k (length c.map * block_size)
    next-IsRoom c k v l absent =
        let h = v.0 in
        record {
          holds =
              IsSound-grow dev.device_size (length c.map) (laws.bytes c.device) c.vmo c.map
                (suc (length c.map)) (omega arith) h;
          below = omega arith;
          free = λ j e p q. let pl = h.placed j e p in absurd (omega arith);
          aligned = omega arith;
          inside = omega arith;
          absent = absent;
          same = λ a l. refl;
        }

    make_room-Found :
        (c : Cache D) (k : ℕ) (mark_dirty : Bool)
        → IsValid dev laws c
        → lookup k c.map ≡ none
        → Ensures E (Found dev laws c k mark_dirty) (make_room dev c)
    unfolding make_room
    make_room-Found c k mark_dirty v absent = elim (Bool-cases (ltb (length c.map) block_count)) [
      | inl l ↦ rw l (next-IsRoom c k v (omega tests) absent)
      | inr l ↦
          let full : length c.map ≡ block_count = omega (tests, v.1) in
          let h : IsSound dev.device_size block_count (laws.bytes c.device) c.vmo c.map =
            IsSound-grow dev.device_size (length c.map) (laws.bytes c.device) c.vmo c.map
              block_count (omega arith) v.0 in
          rw l (evict-Found c k mark_dirty c.map h full absent)
    ]

    -- A block that is there stays where it is, and becomes dirty if it is to be.
    cache_hit-Found :
        (c : Cache D) (k : ℕ) (mark_dirty : Bool) (e : CacheEntry)
        → IsValid dev laws c
        → lookup k c.map ≡ some e
        → Ensures E (Found dev laws c k mark_dirty) (cache_hit dev c k mark_dirty e)
    unfolding cache_hit
    cache_hit-Found c k mark_dirty e v there =
        let size = dev.device_size in
        let disk = laws.bytes c.device in
        let now : CacheEntry = record e { dirty = mark_dirty || e.dirty } in
        let moved : length (put_back k now c.map) ≡ length c.map =
          length-put_back-some k now c.map e v.0.distinct there in
        record {
          valid = rw moved (
            put_back-IsSound size (length c.map) disk c.vmo c.map k now (v.0.placed k e there)
                (λ j f p q. v.0.apart k j e f there p (sym q))
                (λ i q l s. v.0.clean k e i there (ground arith) l s) v.0,
            v.1,
          );
          entry = now;
          there = rw (lookup-put_back k now k c.map) (ground (arith, ==_self k));
          at_slot = refl;
          marked = λ q. ground arith;
          same = λ a l.
              rw (view-put_back size (length c.map) disk c.vmo c.map k now a)
                (elim (Bool-cases (k == block_of a)) [
                  | inl here ↦
                      rw here (sym (at_entry c k e a there (ground (arith, ==_iff k (block_of a)))))
                  | inr elsewhere ↦ rw elsewhere refl
                ]);
        }
      where
        at_entry :
            (c : Cache D) (k : ℕ) (e : CacheEntry) (a : ℕ)
            → lookup k c.map ≡ some e
            → k ≡ block_of a
            → bytes_of dev laws c a ≡ c.vmo (e.vmo_offset + a % block_size)
        at_entry c k e a p q =
            view-eq_vmo (laws.bytes c.device) c.vmo c.map e a
              (ap (λ (x : ℕ). lookup x c.map) (sym q) ∙ p)

    -- With the block at a place of its own in the map, or a place for it, every byte that the cache
    -- stands for is as it was.
    pub get_block-Found :
        (c : Cache D) (k : ℕ) (mark_dirty : Bool)
        → IsValid dev laws c
        → Ensures E (Found dev laws c k mark_dirty) (get_block dev c k mark_dirty)
    unfolding get_block
    get_block-Found c k mark_dirty v = elim (Option-cases (lookup k c.map)) [
      | inl absent ↦ rw (absent, find_block) (make_room-Found c k mark_dirty v absent)
      | inr (e, there) ↦ rw (there, find_block) (cache_hit-Found c k mark_dirty e v there)
    ]
