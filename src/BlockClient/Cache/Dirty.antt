-- ===== src/BlockClient/Cache/Dirty.antt =====
-- Bytes that change under a dirty entry: src/lib/storage/block_client/rust/src/cache.rs.
use fuchsia_storage.Shared.{
  ℕ, ◌+◌, ◌-◌, ◌%◌, ◌<◌, ◌≤◌, ◌≡◌, refl, sym, ap, ◌∙◌, true, false, some, lookup, if◌then◌else◌,
  ◌==◌, ==_iff, arith, Bool-cases, Option-cases, inl, inr,
}
use fuchsia_storage.BlockClient.Memory.{Memory, fill}
use fuchsia_storage.BlockClient.Cache.{CacheEntry, block_size}
use fuchsia_storage.BlockClient.Cache.Map.{Entries}
use fuchsia_storage.BlockClient.Cache.Sound.{block_of, view, IsSound, AgreesBut}

-- The VMO changes in the block of an entry that is dirty.
module _ (size n : ℕ) (disk vmo vmo' : Memory) (m : Entries) (k : ℕ) (e : CacheEntry)
    (there : lookup k m ≡ some e) (same : AgreesBut e.vmo_offset vmo' vmo)
    (h : IsSound size n disk vmo m) where
  pub dirty-IsSound : e.dirty ≡ true → IsSound size n disk vmo' m
  dirty-IsSound marked = record {
    distinct = h.distinct;
    placed = h.placed;
    apart = h.apart;
    clean = λ j f i p c l s.
        let pl = h.placed j f p in
        same f.vmo_offset i pl.2 l (λ q. clash j f p c (h.apart k j e f there p (sym q)))
        ∙ h.clean j f i p c l s;
  }
    where
      clash : (j : ℕ) (f : CacheEntry) → lookup j m ≡ some f → f.dirty ≡ false → k ≡ j → ⊥
      clash j f p c q = ground (arith, ap (λ (x : ℕ). lookup x m) q)

  pub view-dirty :
      (a : ℕ)
      → view disk vmo' m a
        ≡ (if k == block_of a then vmo' (e.vmo_offset + a % block_size) else view disk vmo m a)
  unfolding view
  view-dirty a = elim (Bool-cases (k == block_of a)) [
    | inl here ↦ let p = ap (λ (x : ℕ). lookup x m) (sym (equal here)) ∙ there in rw (here, p) refl
    | inr elsewhere ↦ rw elsewhere (elim (Option-cases (lookup (block_of a) m)) [
      | inl absent ↦ rw absent refl
      | inr (f, p) ↦
          let pl = h.placed (block_of a) f p in
          rw p (
            same f.vmo_offset (a % block_size) pl.2 (omega arith)
              (λ q. differs elsewhere (h.apart k (block_of a) e f there p (sym q))))
    ])
  ]
    where
      equal : (k == block_of a) ≡ true → k ≡ block_of a
      equal q = (==_iff k (block_of a)).0 q

      differs : (k == block_of a) ≡ false → k ≡ block_of a → ⊥
      differs q r = ground (arith, ==_iff k (block_of a))

-- What the block `k` of the VMO has after a write into it is what the write is on the device.
pub fill_block :
    (vmo bytes source : Memory) (slot k skip size a : ℕ)
    → k % block_size ≡ 0
    → skip + size ≤ block_size
    → vmo (slot + a % block_size) ≡ bytes a
    → (if k == block_of a
        then fill vmo (slot + skip) size source (slot + a % block_size)
        else bytes a)
      ≡ fill bytes (k + skip) size source a
fill_block vmo bytes source slot k skip size a al fit same =
    ground (arith, ==_iff k (block_of a), position, outside)
  where
    position :
        k ≡ block_of a
        → slot + skip ≤ slot + a % block_size
        → source (slot + a % block_size - (slot + skip)) ≡ source (a - (k + skip))
    position q p =
        let e : slot + a % block_size - (slot + skip) ≡ a - (k + skip) = omega arith in ap source e

    outside : (k ≡ block_of a → ⊥) → k + skip ≤ a → a < k + skip + size → ⊥
    outside ne p q = ne (omega arith)
