-- ===== src/BlockClient/Cache/Flush.antt =====
-- `flush` and `Drop` of the block cache: src/lib/storage/block_client/rust/src/cache.rs.
use fuchsia_storage.Shared.{
  ℕ, ◌+◌, ◌%◌, ◌<◌, ◌≡◌, refl, sym, ap, subst, ◌∙◌, false, [], ◌∷◌, none, some, length, lookup,
  ◌==◌, ==_iff, ==_self, arith, Bool-cases, Option-cases, inl, inr,
}
use fuchsia_storage.BlockClient.Cache.{
  Device, DeviceLaws, Cache, CacheEntry, Outcome, done, failed, block_size, ◌>>=◌, write_back,
}
use fuchsia_storage.BlockClient.Cache.Stream.{mark_clean, flush_entry, flush_entries, flush}
use fuchsia_storage.BlockClient.Cache.Map.{
  Entries, HasDistinctKeys, lookup-mark_clean, length-mark_clean,
}
use fuchsia_storage.BlockClient.Cache.Sound.{block_of, view-eq_vmo, view-eq_disk}
use fuchsia_storage.BlockClient.Cache.Blocks.{
  Ensures, Ensures-if, >>=-Ensures, OnFailure, bytes_of, IsValid, SameBytes,
}
use fuchsia_storage.BlockClient.Cache.Get.{
  IsWritten, write_back-IsWritten, others_same, block_stored,
}
use fuchsia_storage.BlockClient.Cache.Clean.{cleaned_dirty, mark_clean-IsSound, view-mark_clean}

module _ {D : Type 0} (dev : Device D) (laws : DeviceLaws dev) where
  -- In the course of a flush `m` is what is left: an entry that is not in it is clean.
  record Flushing (c0 : Cache D) (m : Entries) (c : Cache D) : Type 0 where
    pub valid : IsValid dev laws c
    pub same : SameBytes dev laws c0 c
    pub distinct : HasDistinctKeys m
    pub left : (k : ℕ) (e : CacheEntry) → lookup k m ≡ some e → lookup k c.map ≡ some e
    pub flushed :
        (k : ℕ) (e : CacheEntry) → lookup k c.map ≡ some e → lookup k m ≡ none → e.dirty ≡ false

  module _ (c0 : Cache D) (k : ℕ) (e : CacheEntry) (m : Entries) (c : Cache D)
      (h : Flushing c0 ((k, e) ∷ m) c) where
    head_there : lookup k c.map ≡ some e
    unfolding lookup
    head_there = h.left k e (rw (==_self k) refl)

    tail_other : (j : ℕ) (f : CacheEntry) → lookup j m ≡ some f → (k == j) ≡ false
    tail_other j f p =
        let d : lookup k m ≡ none = h.distinct.0 in
        ground (arith, ==_iff k j, ap (λ (x : ℕ). lookup x m))

    tail_left : (j : ℕ) (f : CacheEntry) → lookup j m ≡ some f → lookup j c.map ≡ some f
    unfolding lookup
    tail_left j f p = h.left j f (rw (tail_other j f p) p)

    -- An entry that is clean already.
    skipped : e.dirty ≡ false → Flushing c0 m c
    unfolding lookup
    skipped clean = record {
      valid = h.valid;
      same = h.same;
      distinct = h.distinct.1;
      left = tail_left;
      flushed = λ j f p q. elim (Bool-cases (k == j)) [
        | inl here ↦
            let b : k ≡ j = (==_iff k j).0 here in
            let s : some e ≡ some f = sym head_there ∙ ap (λ (x : ℕ). lookup x c.map) b ∙ p in
            ground arith
        | inr elsewhere ↦ h.flushed j f p (rw elsewhere q)
      ];
    }

    -- An entry that was dirty, once its block is written back.
    sent :
        (c' : Cache D)
        → IsWritten dev laws c c' k e
        → Flushing c0 m (record c' { map = mark_clean k c'.map })
    unfolding lookup
    sent c' w =
        let al = (h.valid.0.placed k e head_there).0 in
        let size = dev.device_size in
        let disk = laws.bytes c.device in
        let disk' = laws.bytes c'.device in
        let others = others_same dev laws c c' k e al w in
        let stored = block_stored dev laws c c' k e al w in
        record {
          valid =
              rw (w.same_map, w.same_vmo, length-mark_clean k c.map)
                (
                  mark_clean-IsSound size (length c.map) disk disk' c.vmo c.map k e head_there
                      others stored h.valid.0,
                  h.valid.1,
                );
          same = λ a l.
              rw (w.same_map, w.same_vmo)
                (view-mark_clean size (length c.map) disk disk' c.vmo c.map k e head_there others
                  stored h.valid.0 a l)
              ∙ h.same a l;
          distinct = h.distinct.1;
          left = λ j f p.
              rw (w.same_map, lookup-mark_clean k j c.map)
                (rw (tail_other j f p) (tail_left j f p));
          flushed = λ j f p q.
              clean_now j f
                (subst (λ (x : Entries). lookup j (mark_clean k x) ≡ some f) w.same_map p) q;
        }
      where
        clean_now :
            (j : ℕ) (f : CacheEntry)
            → lookup j (mark_clean k c.map) ≡ some f
            → lookup j m ≡ none
            → f.dirty ≡ false
        clean_now j f p q = elim (Bool-cases (k == j)) [
          | inl here ↦
              cleaned_dirty (lookup j c.map) f (ground (arith, lookup-mark_clean k j c.map))
          | inr elsewhere ↦
              h.flushed j f (ground (arith, lookup-mark_clean k j c.map)) (rw elsewhere q)
        ]

  -- A flush leaves the bytes that the cache stands for on the device, and the cache standing for
  -- them.
  abbrev pub Flushes : Cache D → Cache D → Unit {0} → Type 0
  Flushes c c' _ =
      IsValid dev laws c'
      × SameBytes dev laws c c'
      × ((a : ℕ) → a < dev.device_size → laws.bytes c'.device a ≡ bytes_of dev laws c a)

  module _ {E : Type 0} (fails : OnFailure dev E) where
    flush_entry-Flushing :
        (c0 : Cache D) (k : ℕ) (e : CacheEntry) (m : Entries) (c : Cache D)
        → Flushing c0 ((k, e) ∷ m) c
        → Ensures E (λ c' _. Flushing c0 m c') (flush_entry dev c k e)
    unfolding flush_entry
    flush_entry-Flushing c0 k e m c h =
        Ensures-if E (λ c' _. Flushing c0 m c') e.dirty
          (write_back dev c k e >>= λ c' _. (record c' { map = mark_clean k c'.map }, done tt))
          (c, done tt)
          (λ dirty.
            >>=-Ensures E (λ c' _. IsWritten dev laws c c' k e) (λ c' _. Flushing c0 m c')
              (write_back dev c k e) (λ c' _. (record c' { map = mark_clean k c'.map }, done tt))
              (let place = h.valid.0.placed k e (head_there c0 k e m c h) in
                write_back-IsWritten dev laws fails c k e place.0 place.1)
              (λ c' u w. sent c0 k e m c h c' w))
          (λ clean. skipped c0 k e m c h clean)

    flush_entries-Flushing :
        (c0 : Cache D) (m : Entries) (c : Cache D)
        → Flushing c0 m c
        → Ensures E (λ c' _. Flushing c0 [] c') (flush_entries dev c m)
    unfolding flush_entries
    flush_entries-Flushing c0 [] c h = h
    flush_entries-Flushing c0 ((k, e) ∷ m) c h =
        >>=-Ensures E (λ c' _. Flushing c0 m c') (λ c' _. Flushing c0 [] c') (flush_entry dev c k e)
          (λ c' _. flush_entries dev c' m) (flush_entry-Flushing c0 k e m c h)
          (λ c' u w. flush_entries-Flushing c0 m c' w)

    all_flushed : (c c' : Cache D) → Flushing c [] c' → Flushes c c' tt
    unfolding lookup
    all_flushed c c' h = (h.valid, h.same, λ a l. on_device a l ∙ h.same a l)
      where
        on_device : (a : ℕ) → a < dev.device_size → laws.bytes c'.device a ≡ bytes_of dev laws c' a
        on_device a l = elim (Option-cases (lookup (block_of a) c'.map)) [
          | inl absent ↦ sym (view-eq_disk (laws.bytes c'.device) c'.vmo c'.map a absent)
          | inr (e, p) ↦
              let al : block_of a + a % block_size ≡ a = omega arith in
              let here : block_of a + a % block_size < dev.device_size = omega arith in
              let q =
                h.valid.0.clean (block_of a) e (a % block_size) p (h.flushed (block_of a) e p refl)
                  (omega arith) here in
              ap (laws.bytes c'.device) (sym al)
              ∙ sym q
              ∙ sym (view-eq_vmo (laws.bytes c'.device) c'.vmo c'.map e a p)
        ]

    pub flush-Flushes : (c : Cache D) → IsValid dev laws c → Ensures E (Flushes c) (flush dev c)
    unfolding flush
    flush-Flushes c v = finish (flush_entries dev c c.map) (
        flush_entries-Flushing c c.map c (record {
          valid = v;
          same = λ a l. refl;
          distinct = v.0.distinct;
          left = λ k e p. p;
          flushed = λ k e p q. ground arith;
        }))
      where
        finish :
            (r : Cache D × Outcome Unit)
            → Ensures E (λ c' _. Flushing c [] c') r
            → Ensures E (Flushes c) r
        finish (c', done u) h = all_flushed c c' h
        finish (c', failed e) h = h
