-- ===== src/BlockClient/Cache/Rooms.antt =====
-- A place in the VMO for a block that the cache does not hold:
-- src/lib/storage/block_client/rust/src/cache.rs.
use fuchsia_storage.Shared.{
  ℕ, ◌+◌, ◌%◌, ◌<◌, ◌≤◌, ◌≡◌, ◌≢◌, refl, sym, ap, ◌∙◌, false, ◌∷◌, none, some, lookup, ◌==◌, ==_iff,
  ==_self, arith, Bool-cases, Option-cases, inl, inr,
}
use fuchsia_storage.BlockClient.Memory.{Memory, fill}
use fuchsia_storage.BlockClient.Cache.{CacheEntry, put_back, block_size}
use fuchsia_storage.BlockClient.Cache.Map.{Entries}
use fuchsia_storage.BlockClient.Cache.Sound.{
  block_of, view, IsFree, IsPlaced, IsSound, AgreesBut, put_back-IsSound,
}

-- A write that stays within one block of the VMO leaves the others.
pub fill-AgreesBut :
    (vmo source : Memory) (slot start size : ℕ)
    → slot % block_size ≡ 0
    → slot ≤ start
    → start + size ≤ slot + block_size
    → AgreesBut slot (fill vmo start size source) vmo
fill-AgreesBut vmo source slot start size al lo hi t i at l ne = ground (arith, outside)
  where
    outside : start ≤ t + i → t + i < start + size → ⊥
    outside p q = ne (omega arith)

module _ (size n : ℕ) (disk vmo : Memory) (k : ℕ) (e : CacheEntry) (rest : Entries)
    (h : IsSound size n disk vmo ((k, e) ∷ rest)) where
  other : (j : ℕ) (f : CacheEntry) → lookup j rest ≡ some f → (k == j) ≡ false
  unfolding lookup
  other j f p =
      let d : lookup k rest ≡ none = h.distinct.0 in
      ground (arith, ==_iff k j, ap (λ (x : ℕ). lookup x rest))

  there : (j : ℕ) (f : CacheEntry) → lookup j rest ≡ some f → lookup j ((k, e) ∷ rest) ≡ some f
  unfolding lookup
  there j f p = rw (other j f p) p

  first : lookup k ((k, e) ∷ rest) ≡ some e
  unfolding lookup
  first = rw (==_self k) refl

  pub pop-IsSound : IsSound size n disk vmo rest
  pop-IsSound = record {
    distinct = h.distinct.1;
    placed = λ j f p. h.placed j f (there j f p);
    apart = λ i j f g p q. h.apart i j f g (there i f p) (there j g q);
    clean = λ j f i p. h.clean j f i (there j f p);
  }

  pub pop-IsFree : IsFree e.vmo_offset rest
  pop-IsFree j f p q =
      let same = h.apart k j e f first (there j f p) (sym q) in
      ground (arith, other j f p, ==_iff k j)

  pub pop-IsPlaced : IsPlaced size n k e.vmo_offset
  pop-IsPlaced = h.placed k e first

  pub pop_clean :
      (i : ℕ)
      → e.dirty ≡ false
      → i < block_size
      → k + i < size
      → vmo (e.vmo_offset + i) ≡ disk (k + i)
  pop_clean i = h.clean k e i first

  -- The cache without its first entry stands for the same bytes if the device has those of that
  -- entry's block.
  pub view-pop :
      (disk' : Memory) (a : ℕ)
      → a < size
      → ((i : ℕ) → i < block_size → k + i < size → disk' (k + i) ≡ vmo (e.vmo_offset + i))
      → ((b : ℕ) → block_of b ≢ k → disk' b ≡ disk b)
      → view disk' vmo rest a ≡ view disk vmo ((k, e) ∷ rest) a
  unfolding view lookup
  view-pop disk' a l stored same = elim (Bool-cases (k == block_of a)) [
    | inl here ↦
        let b : k ≡ block_of a = ground (arith, ==_iff k (block_of a)) in
        let absent : lookup (block_of a) rest ≡ none =
          ap (λ (x : ℕ). lookup x rest) (sym b) ∙ h.distinct.0 in
        let at : a ≡ k + a % block_size = omega arith in
        rw (here, absent) (ap disk' at ∙ stored (a % block_size) (omega arith) (omega arith))
    | inr elsewhere ↦ rw elsewhere (elim (Option-cases (lookup (block_of a) rest)) [
      | inl absent ↦ rw absent (same a (λ q. ground (arith, ==_iff k (block_of a), elsewhere)))
      | inr (f, p) ↦ rw p refl
    ])
  ]

module _ (size n : ℕ) (disk vmo : Memory) (m : Entries) (k : ℕ) (e : CacheEntry)
    (place : IsPlaced size n k e.vmo_offset) (free : IsFree e.vmo_offset m)
    (absent : lookup k m ≡ none) (h : IsSound size n disk vmo m) where
  -- A block comes into a place that was free, with whatever bytes the VMO has there; one that is
  -- not dirty agrees with the device.
  pub insert-IsSound :
      ((i : ℕ)
        → e.dirty ≡ false
        → i < block_size
        → k + i < size
        → vmo (e.vmo_offset + i) ≡ disk (k + i))
      → IsSound size n disk vmo (put_back k e m)
  insert-IsSound agrees =
      put_back-IsSound size n disk vmo m k e place (λ j f p q. absurd (free j f p q)) agrees h
