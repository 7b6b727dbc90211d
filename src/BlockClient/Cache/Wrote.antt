-- ===== src/BlockClient/Cache/Wrote.antt =====
-- Parts of `Cache::write_at`: src/lib/storage/block_client/rust/src/cache.rs.
use fuchsia_storage.Shared.{
  ℕ, ◌+◌, ◌-◌, ◌%◌, ◌<◌, ◌≤◌, min, ◌≡◌, refl, ap, ◌∙◌, ◌⊎◌, List, length, take, drop, drop-drop,
  arith, inl, inr,
}
use fuchsia_storage.BlockClient.Memory.{fill, contents, fill-take, fill-add}
use fuchsia_storage.BlockClient.Cache.{Device, DeviceLaws, Cache, block_size}
use fuchsia_storage.BlockClient.Cache.Blocks.{bytes_of, IsValid}
use fuchsia_storage.BlockClient.Cache.Pieces.{Writes}

module _ {D : Type 0} (dev : Device D) (laws : DeviceLaws dev) where
  -- The first `n` bytes of the buffer are written from `start` on, and `rest` is what is left of
  -- it.
  abbrev pub Wrote : Cache D → ℕ → ℕ → List ℕ → Cache D → List ℕ → Type 0
  Wrote c start n buf c' rest =
      IsValid dev laws c'
      × ((a : ℕ)
          → a < dev.device_size
          → bytes_of dev laws c' a ≡ fill (bytes_of dev laws c) start n (contents buf) a)
      × (rest ≡ drop n buf)

  pub Wrote-take :
      (c c' : Cache D) (start n : ℕ) (buf : List ℕ)
      → n ≤ length buf
      → Writes dev laws c start (take n buf) c' tt
      → Wrote c start n buf c' (drop n buf)
  Wrote-take c c' start n buf le (v, w) =
      (v, λ a l. w a l ∙ fill-take (bytes_of dev laws c) start n buf a le, refl)

  pub Wrote-nothing :
      (c : Cache D) (start n : ℕ) (buf : List ℕ)
      → IsValid dev laws c
      → n ≡ 0
      → Wrote c start n buf c buf
  Wrote-nothing c start n buf v e = (v, λ a l. ground arith, rw e refl)

  -- Two writes, one after the other, are one; the second may be empty, and then stand anywhere.
  pub Wrote-append :
      (c c' c'' : Cache D) (start next n k : ℕ) (buf rest rest' : List ℕ)
      → (next ≡ start + n) ⊎ (k ≡ 0)
      → Wrote c start n buf c' rest
      → Wrote c' next k rest c'' rest'
      → Wrote c start (n + k) buf c'' rest'
  Wrote-append c c' c'' start next n k buf rest rest' place (v, w, e) (v', w', e') = (
    v',
    λ a l.
        w' a l
        ∙ at_next place a
        ∙ ap (λ (b : List ℕ). fill (bytes_of dev laws c') (start + n) k (contents b) a) e
        ∙ fill-add (bytes_of dev laws c) (bytes_of dev laws c') start n k buf a (w a l),
    e' ∙ ap (drop k) e ∙ drop-drop n k buf,
  )
    where
      at_next :
          (next ≡ start + n) ⊎ (k ≡ 0)
          → (a : ℕ)
          → fill (bytes_of dev laws c') next k (contents rest) a
            ≡ fill (bytes_of dev laws c') (start + n) k (contents rest) a
      at_next (inl p) a = rw p refl
      at_next (inr p) a = rw p (ground arith)

  -- The head: the next block, and what is left of the buffer.
  abbrev pub Head : Cache D → ℕ → List ℕ → Cache D → ℕ × List ℕ → Type 0
  Head c offset buf c' (next, rest) =
      Wrote c offset (min next (offset + length buf) - offset) buf c' rest
      × (next % block_size ≡ 0)
      × (offset ≤ next)
      × (next < offset + block_size)

  -- The blocks: the first byte that is left, and what is left of the buffer.
  abbrev pub Whole : Cache D → ℕ → ℕ → List ℕ → Cache D → ℕ × List ℕ → Type 0
  Whole c aligned end buf c' (next, rest) =
      Wrote c aligned (next - aligned) buf c' rest
      × (next % block_size ≡ 0)
      × (aligned ≤ next)
      × (end < next + block_size)
      × ((next ≤ end) ⊎ (next ≡ aligned))
