-- ===== src/BlockClient/Cache/Clean.antt =====
-- Entries that are marked clean: src/lib/storage/block_client/rust/src/cache.rs.
use fuchsia_storage.Shared.{
  ℕ, ◌+◌, ◌%◌, ◌<◌, ◌≡◌, ◌≢◌, refl, sym, ap, ◌∙◌, true, false, Option, none, some, lookup, ◌==◌,
  ==_iff, arith, Bool-cases, Option-cases, inl, inr,
}
use fuchsia_storage.BlockClient.Memory.{Memory}
use fuchsia_storage.BlockClient.Cache.{CacheEntry, block_size}
use fuchsia_storage.BlockClient.Cache.Stream.{mark_clean}
use fuchsia_storage.BlockClient.Cache.Map.{
  Entries, cleaned, lookup-mark_clean, mark_clean-HasDistinctKeys,
}
use fuchsia_storage.BlockClient.Cache.Sound.{block_of, view, view-eq_vmo, view-eq_disk, IsSound}

cleaned-eq_some :
    (o : Option CacheEntry) (f : CacheEntry)
    → cleaned o ≡ some f
    → (e : CacheEntry) × (o ≡ some e) × (e.vmo_offset ≡ f.vmo_offset)
cleaned-eq_some none f h = cc
cleaned-eq_some (some e) f h = (e, refl, ground arith)

pub cleaned_dirty : (o : Option CacheEntry) (f : CacheEntry) → cleaned o ≡ some f → f.dirty ≡ false
cleaned_dirty none f h = cc
cleaned_dirty (some e) f h = ground arith

-- An entry after `mark_clean` is one from before, at its place.
lookup-mark_clean-some :
    (k j : ℕ) (m : Entries) (f : CacheEntry)
    → lookup j (mark_clean k m) ≡ some f
    → (e : CacheEntry) × (lookup j m ≡ some e)
      × (e.vmo_offset ≡ f.vmo_offset)
      × ((k == j) ≡ false → e ≡ f)
lookup-mark_clean-some k j m f h = elim (Bool-cases (k == j)) [
  | inl same ↦
      let (e, p, q) = cleaned-eq_some (lookup j m) f (ground (arith, lookup-mark_clean k j m)) in
      (e, p, q, λ r. cc)
  | inr other ↦ (f, ground (arith, lookup-mark_clean k j m), refl, λ r. refl)
]

module _ (size n : ℕ) (disk disk' vmo : Memory) (m : Entries) (k : ℕ) (e : CacheEntry)
    (there : lookup k m ≡ some e) (others : (a : ℕ) → block_of a ≢ k → disk' a ≡ disk a)
    (stored : (i : ℕ) → i < block_size → k + i < size → disk' (k + i) ≡ vmo (e.vmo_offset + i))
    (h : IsSound size n disk vmo m) where
  pub mark_clean-IsSound : IsSound size n disk' vmo (mark_clean k m)
  mark_clean-IsSound = record {
    distinct = mark_clean-HasDistinctKeys k m h.distinct;
    placed = λ j f p.
        let (g, q, at, _) = lookup-mark_clean-some k j m f p in
        let place = h.placed j g q in
        (place.0, place.1, ap (λ (x : ℕ). x % block_size) (sym at) ∙ place.2, omega arith);
    apart = λ i j f g p q s.
        let (f', p', at, _) = lookup-mark_clean-some k i m f p in
        let (g', q', at', _) = lookup-mark_clean-some k j m g q in
        h.apart i j f' g' p' q' (at ∙ s ∙ sym at');
    clean = λ j f i p c l s.
        let (g, q, at, same) = lookup-mark_clean-some k j m f p in
        elim (Bool-cases (k == j)) [
          | inl here ↦ agree j i g q here l s (ap (λ (x : ℕ). vmo (x + i)) (sym at))
          | inr elsewhere ↦
              let place = h.placed j g q in
              ap (λ (x : ℕ). vmo (x + i)) (sym at)
              ∙ h.clean j g i q (ap (λ (x : CacheEntry). x.dirty) (same elsewhere) ∙ c) l s
              ∙ sym (others (j + i) (λ r. differ j i elsewhere place.0 l r))
        ];
  }
    where
      agree :
          (j i : ℕ) (g : CacheEntry)
          → lookup j m ≡ some g
          → (k == j) ≡ true
          → i < block_size
          → j + i < size
          → {x : ℕ} → x ≡ vmo (g.vmo_offset + i)
          → x ≡ disk' (j + i)
      agree j i g q here l s at =
          let b : k ≡ j = (==_iff k j).0 here in
          let same : some g ≡ some e = sym q ∙ ap (λ (x : ℕ). lookup x m) (sym b) ∙ there in
          let off : g.vmo_offset ≡ e.vmo_offset = ground arith in
          let left : k + i < size = omega arith in
          at
          ∙ ap (λ (x : ℕ). vmo (x + i)) off
          ∙ sym (stored i l left)
          ∙ ap (λ (x : ℕ). disk' (x + i)) b

      differ :
          (j i : ℕ)
          → (k == j) ≡ false
          → j % block_size ≡ 0
          → i < block_size
          → block_of (j + i) ≡ k
          → ⊥
      differ j i q z l r = let e : k ≡ j = omega arith in ground (arith, ==_iff k j)

  -- What the cache stands for is as it was.
  pub view-mark_clean : (a : ℕ) → a < size → view disk' vmo (mark_clean k m) a ≡ view disk vmo m a
  view-mark_clean a l = elim (Option-cases (lookup (block_of a) m)) [
    | inl absent ↦
        view-eq_disk disk' vmo (mark_clean k m) a (gone absent)
        ∙ others a (λ q. missing absent q)
        ∙ sym (view-eq_disk disk vmo m a absent)
    | inr (g, p) ↦
        let (f, q, at) = found g p in
        view-eq_vmo disk' vmo (mark_clean k m) f a q
        ∙ ap (λ (x : ℕ). vmo (x + a % block_size)) at
        ∙ sym (view-eq_vmo disk vmo m g a p)
  ]
    where
      gone : lookup (block_of a) m ≡ none → lookup (block_of a) (mark_clean k m) ≡ none
      gone q = ground (arith, lookup-mark_clean k (block_of a) m)

      missing : lookup (block_of a) m ≡ none → block_of a ≡ k → ⊥
      missing q r = ground (arith, ap (λ (x : ℕ). lookup x m) r)

      found :
          (g : CacheEntry)
          → lookup (block_of a) m ≡ some g
          → (f : CacheEntry) × (lookup (block_of a) (mark_clean k m) ≡ some f)
            × (f.vmo_offset ≡ g.vmo_offset)
      found g p = elim (Bool-cases (k == block_of a)) [
        | inl here ↦
            (record g { dirty = false }, ground (arith, lookup-mark_clean k (block_of a) m), refl)
        | inr elsewhere ↦ (g, ground (arith, lookup-mark_clean k (block_of a) m), refl)
      ]
