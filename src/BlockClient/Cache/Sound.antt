-- ===== src/BlockClient/Cache/Sound.antt =====
-- What the block cache keeps true of its map, the VMO and the device, and the bytes that it stands
-- for: src/lib/storage/block_client/rust/src/cache.rs.
use fuchsia_storage.Shared.{
  ℕ, ◌+◌, ◌-◌, ◌*◌, ◌%◌, ◌<◌, ◌≤◌, ◌≡◌, ◌≢◌, refl, sym, ap, ◌∙◌, false, Option, none, some, lookup,
  if◌then◌else◌, ◌==◌, ==_iff, arith, Bool-cases, Option-cases, inl, inr,
}
use fuchsia_storage.BlockClient.Memory.{Memory}
use fuchsia_storage.BlockClient.Cache.{CacheEntry, put_back, block_size}
use fuchsia_storage.BlockClient.Cache.Map.{
  Entries, HasDistinctKeys, lookup-put_back, put_back-HasDistinctKeys,
}

abbrev pub block_of : ℕ → ℕ
block_of a = a - a % block_size

abbrev pub view_entry : Memory → Memory → ℕ → Option CacheEntry → ℕ
view_entry disk vmo a none = disk a
view_entry disk vmo a (some entry) = vmo (entry.vmo_offset + a % block_size)

-- The bytes that the cache stands for: those in the VMO where it holds the block, and those of the
-- device where it does not.
unfoldable pub view : Memory → Memory → Entries → Memory
view disk vmo m a = view_entry disk vmo a (lookup (block_of a) m)

pub view-eq_vmo :
    (disk vmo : Memory) (m : Entries) (e : CacheEntry) (a : ℕ)
    → lookup (block_of a) m ≡ some e
    → view disk vmo m a ≡ vmo (e.vmo_offset + a % block_size)
unfolding view
view-eq_vmo disk vmo m e a h = rw h refl

pub view-eq_disk :
    (disk vmo : Memory) (m : Entries) (a : ℕ)
    → lookup (block_of a) m ≡ none
    → view disk vmo m a ≡ disk a
unfolding view
view-eq_disk disk vmo m a h = rw h refl

-- An entry is for a whole block of the device, and has one of the first `n` blocks of the VMO.
abbrev pub IsPlaced : ℕ → ℕ → ℕ → ℕ → Type 0
IsPlaced size n offset vmo_offset =
    (offset % block_size ≡ 0)
    × (offset < size)
    × (vmo_offset % block_size ≡ 0)
    × (vmo_offset < n * block_size)

-- No entry has the block of the VMO at `vmo_offset`.
abbrev pub IsFree : ℕ → Entries → Type 0
IsFree vmo_offset m = (k : ℕ) (e : CacheEntry) → lookup k m ≡ some e → e.vmo_offset ≢ vmo_offset

-- Every block has one entry, no two share a block of the VMO, and one that is not dirty agrees with
-- the device.
pub record IsSound (size n : ℕ) (disk vmo : Memory) (m : Entries) : Type 0 where
  pub distinct : HasDistinctKeys m
  pub placed : (k : ℕ) (e : CacheEntry) → lookup k m ≡ some e → IsPlaced size n k e.vmo_offset
  pub apart :
      (k j : ℕ) (e f : CacheEntry)
      → lookup k m ≡ some e
      → lookup j m ≡ some f
      → e.vmo_offset ≡ f.vmo_offset
      → k ≡ j
  pub clean :
      (k : ℕ) (e : CacheEntry) (i : ℕ)
      → lookup k m ≡ some e
      → e.dirty ≡ false
      → i < block_size
      → k + i < size
      → vmo (e.vmo_offset + i) ≡ disk (k + i)

-- Two contents of the VMO differ at most in the block at `slot`.
abbrev pub AgreesBut : ℕ → Memory → Memory → Type 0
AgreesBut slot vmo' vmo =
    (t i : ℕ) → t % block_size ≡ 0 → i < block_size → t ≢ slot → vmo' (t + i) ≡ vmo (t + i)

module _ (size n : ℕ) (disk vmo : Memory) (m : Entries) where
  pub IsSound-grow : (n' : ℕ) → n ≤ n' → IsSound size n disk vmo m → IsSound size n' disk vmo m
  IsSound-grow n' le h = record {
    distinct = h.distinct;
    placed = λ k e p. let q = h.placed k e p in (q.0, q.1, q.2, omega arith);
    apart = h.apart;
    clean = h.clean;
  }

  module _ (k : ℕ) (e : CacheEntry) where
    -- An entry of its own place comes in, or takes the place of that of its block.
    pub put_back-IsSound :
        IsPlaced size n k e.vmo_offset
        → ((j : ℕ) (f : CacheEntry) → lookup j m ≡ some f → f.vmo_offset ≡ e.vmo_offset → k ≡ j)
        → ((i : ℕ)
            → e.dirty ≡ false
            → i < block_size
            → k + i < size
            → vmo (e.vmo_offset + i) ≡ disk (k + i))
        → IsSound size n disk vmo m
        → IsSound size n disk vmo (put_back k e m)
    put_back-IsSound place alone agrees h = record {
      distinct = put_back-HasDistinctKeys k e m h.distinct;
      placed = λ j f. rw lookup-put_back (λ p. elim (Bool-cases (k == j)) [
        | inl same ↦ ground (arith, ==_iff k j)
        | inr other ↦ h.placed j f (ground arith)
      ]);
      apart = λ i j f g.
          rw (lookup-put_back k e i m, lookup-put_back k e j m)
            (λ p q same.
              ground (arith, ==_iff k i, ==_iff k j, h.apart i j f g, alone i f, alone j g));
      clean = λ j f i.
          rw lookup-put_back (λ p c l s. ground (arith, ==_iff k j, h.clean j f i, agrees i));
    }

    pub view-put_back :
        (a : ℕ)
        → view disk vmo (put_back k e m) a
          ≡ (if k == block_of a then vmo (e.vmo_offset + a % block_size) else view disk vmo m a)
    unfolding view
    view-put_back a = rw (lookup-put_back k e (block_of a) m) (elim (Bool-cases (k == block_of a)) [
      | inl same ↦ rw same refl
      | inr other ↦ rw other refl
    ])

  -- Where the device changes in a block that no entry is for, the cache stays sound.
  pub disk-IsSound :
      (k : ℕ) (disk' : Memory)
      → k % block_size ≡ 0
      → lookup k m ≡ none
      → ((a : ℕ) → block_of a ≢ k → disk' a ≡ disk a)
      → IsSound size n disk vmo m
      → IsSound size n disk' vmo m
  disk-IsSound k disk' al absent same h = record {
    distinct = h.distinct;
    placed = h.placed;
    apart = h.apart;
    clean = λ j e i p c l s.
        h.clean j e i p c l s
        ∙ sym (same (j + i) (λ q. cannot j e i p l (let pl = h.placed j e p in pl.0) q));
  }
    where
      cannot :
          (j : ℕ) (e : CacheEntry) (i : ℕ)
          → lookup j m ≡ some e
          → i < block_size
          → j % block_size ≡ 0
          → block_of (j + i) ≡ k
          → ⊥
      cannot j e i p l z q =
          let same : j ≡ k = omega arith in ground (arith, ap (λ (x : ℕ). lookup x m) same)

  -- Where the VMO changes in one of its blocks that no entry has, the cache stays as it was.
  module _ (slot : ℕ) (vmo' : Memory) (free : IsFree slot m) (same : AgreesBut slot vmo' vmo) where
    pub vmo-IsSound : IsSound size n disk vmo m → IsSound size n disk vmo' m
    vmo-IsSound h = record {
      distinct = h.distinct;
      placed = h.placed;
      apart = h.apart;
      clean = λ j e i p c l s.
          let pl = h.placed j e p in
          same e.vmo_offset i pl.2 l (free j e p) ∙ h.clean j e i p c l s;
    }

    pub view-vmo : IsSound size n disk vmo m → (a : ℕ) → view disk vmo' m a ≡ view disk vmo m a
    unfolding view
    view-vmo h a = elim (Option-cases (lookup (block_of a) m)) [
      | inl absent ↦ rw absent refl
      | inr (e, p) ↦
          let pl = h.placed (block_of a) e p in
          rw p (same e.vmo_offset (a % block_size) pl.2 (omega arith) (free (block_of a) e p))
    ]
