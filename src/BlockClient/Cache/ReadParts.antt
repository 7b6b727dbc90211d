-- ===== src/BlockClient/Cache/ReadParts.antt =====
-- The three parts of a read, before, on and after whole blocks:
-- src/lib/storage/block_client/rust/src/cache.rs.
use fuchsia_storage.Shared.{
  ℕ, zero, suc, ◌+◌, ◌-◌, ◌%◌, ◌/◌, ◌<◌, ◌≤◌, min, ◌≡◌, refl, sym, ap, subst, ◌∙◌, false, ◌⊎◌, List,
  [], ◌++◌, leb, ltb, arith, Bool-cases, inl, inr, tests,
}
use fuchsia_storage.BlockClient.Memory.{Memory, bytes_at, bytes_at-add, bytes_at_cong}
use fuchsia_storage.BlockClient.Cache.{
  Device, DeviceLaws, Cache, Outcome, done, block_size, ◌>>=◌, read_piece, read_head, read_blocks,
  read_tail, exceeds,
}
use fuchsia_storage.BlockClient.Cache.Blocks.{
  Ensures, Ensures-if, >>=-Ensures, OnFailure, bytes_of, IsValid, SameBytes,
}
use fuchsia_storage.BlockClient.Cache.Load.{read_piece_lem}

-- Nothing is read alike at any place.
empty : (m : Memory) (start from k : ℕ) → k ≡ 0 → bytes_at m start k ≡ bytes_at m from k
unfolding bytes_at
empty m start from k e = rw e refl

module _ {D : Type 0} (dev : Device D) where
  pub exceeds_not :
      (size offset : ℕ) → offset + size ≤ dev.device_size → exceeds dev size offset ≡ false
  unfolding exceeds
  exceeds_not size offset l = ground arith

module _ {D : Type 0} (dev : Device D) (laws : DeviceLaws dev) where
  -- A read that leaves the bytes that the cache stands for, and returns `size` of them.
  abbrev pub Reads : Cache D → ℕ → ℕ → Cache D → List ℕ → Type 0
  Reads c start size c' bytes =
      IsValid dev laws c'
      × SameBytes dev laws c c'
      × (bytes ≡ bytes_at (bytes_of dev laws c) start size)

  -- A read that starts from a cache of the same bytes returns the same.
  Reads-after :
      (c c' c'' : Cache D) (start size : ℕ) (bytes : List ℕ)
      → SameBytes dev laws c c'
      → ((i : ℕ) → i < size → start + i < dev.device_size)
      → Reads c' start size c'' bytes
      → Reads c start size c'' bytes
  Reads-after c c' c'' start size bytes s l (v, t, e) = (
    v,
    λ a p. t a p ∙ s a p,
    e
        ∙ bytes_at_cong (bytes_of dev laws c') (bytes_of dev laws c) start start size
            (λ i p. s (start + i) (l i p)),
  )

  -- Two reads, one after the other, are one.
  Reads-append :
      (c c' c'' : Cache D) (start n k : ℕ) (first more : List ℕ)
      → ((i : ℕ) → i < k → start + n + i < dev.device_size)
      → Reads c start n c' first
      → Reads c' (start + n) k c'' more
      → Reads c start (n + k) c'' (first ++ more)
  Reads-append c c' c'' start n k first more l (v, s, e) r =
      let (w, t, f) = Reads-after c c' c'' (start + n) k more s l r in
      (w, t, rw (e, f) (sym (bytes_at-add (bytes_of dev laws c) start n k)))

  -- The second part may be empty, and then stand anywhere.
  pub Reads-append_at :
      (c c' c'' : Cache D) (start next n k : ℕ) (first more : List ℕ)
      → (next ≡ start + n) ⊎ (k ≡ 0)
      → ((i : ℕ) → i < k → start + n + i < dev.device_size)
      → Reads c start n c' first
      → Reads c' next k c'' more
      → Reads c start (n + k) c'' (first ++ more)
  Reads-append_at c c' c'' start next n k first more (inl e) l r t =
      Reads-append c c' c'' start n k first more l r
        (t.0, t.1, t.2 ∙ ap (λ (x : ℕ). bytes_at (bytes_of dev laws c') x k) e)
  Reads-append_at c c' c'' start next n k first more (inr e) l r t =
      Reads-append c c' c'' start n k first more l r
        (t.0, t.1, t.2 ∙ empty (bytes_of dev laws c') next (start + n) k e)

  Reads-nothing :
      (c : Cache D) (start size : ℕ) → IsValid dev laws c → size ≡ 0 → Reads c start size c []
  unfolding bytes_at
  Reads-nothing c start size v e = (v, λ a l. refl, rw e refl)

  -- The head: the next block, and the bytes up to it or to the end.
  abbrev pub Head : Cache D → ℕ → ℕ → Cache D → ℕ × List ℕ → Type 0
  Head c offset end c' (next, bytes) =
      Reads c offset (min next end - offset) c' bytes
      × (next % block_size ≡ 0)
      × (offset ≤ next)
      × (next < offset + block_size)

  -- The blocks: the first byte that is left, and the bytes up to it.
  abbrev pub Whole : Cache D → ℕ → ℕ → Cache D → ℕ × List ℕ → Type 0
  Whole c aligned end c' (next, bytes) =
      Reads c aligned (next - aligned) c' bytes
      × (next % block_size ≡ 0)
      × (aligned ≤ next)
      × (end < next + block_size)
      × ((next ≤ end) ⊎ (next ≡ aligned))

  module _ {E : Type 0} (fails : OnFailure dev E) where
    pub read_head_lem :
        (c : Cache D) (offset end : ℕ)
        → IsValid dev laws c
        → offset ≤ end
        → end ≤ dev.device_size
        → Ensures E (Head c offset end) (read_head dev c (offset - offset % block_size) offset end)
    unfolding read_head
    read_head_lem c offset end v le l = elim (Bool-cases (ltb aligned offset)) [
      | inl some_head ↦
          let before : aligned < offset = omega (tests, some_head) in
          rw some_head (
            >>=-Ensures E (Reads c (aligned + skip) size) (Head c offset end)
              (read_piece dev c aligned skip size)
              (λ c' bytes. (c', done (aligned + block_size, bytes)))
              (read_piece_lem dev laws fails c aligned skip size v (omega arith) (omega arith)
                (omega arith) (omega arith))
              (λ c' bytes r. (
                (
                  r.0,
                  r.1,
                  r.2 ∙ ap (λ (x : ℕ). bytes_at (bytes_of dev laws c) x size) (omega arith),
                ),
                omega arith,
                omega arith,
                omega arith,
              )))
      | inr no_head ↦
          let at : offset ≤ aligned = omega (tests, no_head) in
          rw no_head (
            Reads-nothing c offset (min aligned end - offset) v (omega arith),
            omega arith,
            omega arith,
            omega arith,
          )
    ]
      where
        aligned : ℕ
        aligned = offset - offset % block_size

        skip : ℕ
        skip = offset - aligned

        size : ℕ
        size = min (aligned + block_size) end - offset

    pub read_blocks_lem :
        (fuel : ℕ) (c : Cache D) (aligned end : ℕ)
        → IsValid dev laws c
        → aligned % block_size ≡ 0
        → end ≤ dev.device_size
        → (end - aligned) / block_size < fuel
        → Ensures E (Whole c aligned end) (read_blocks dev fuel c aligned end)
    unfolding read_blocks
    read_blocks_lem zero c aligned end v al l enough = absurd (omega arith)
    read_blocks_lem (suc fuel) c aligned end v al l enough =
        Ensures-if E (Whole c aligned end) (leb (aligned + block_size) end)
          (read_piece dev c aligned 0 block_size >>= next) (c, done (aligned, []))
          (λ more.
            let fits : aligned + block_size ≤ end = omega (tests, more) in
            >>=-Ensures E (Reads c (aligned + 0) block_size) (Whole c aligned end)
              (read_piece dev c aligned 0 block_size) next
              (read_piece_lem dev laws fails c aligned 0 block_size v al (omega arith) (omega arith)
                (omega arith))
              (λ c' bytes r.
                >>=-Ensures E (Whole c' (aligned + block_size) end) (Whole c aligned end)
                  (read_blocks dev fuel c' (aligned + block_size) end)
                  (λ c'' rest. (c'', done (rest.0, bytes ++ rest.1)))
                  (read_blocks_lem fuel c' (aligned + block_size) end r.0 (omega arith) l
                    (omega arith))
                  (λ c'' rest w. joined c' c'' bytes rest fits r w)))
          (λ last.
            let over : end < aligned + block_size = omega (tests, last) in
            (
              Reads-nothing c aligned (aligned - aligned) v (omega arith),
              al,
              omega arith,
              over,
              inr refl,
            ))
      where
        next : Cache D → List ℕ → Cache D × Outcome (ℕ × List ℕ)
        next c' bytes = read_blocks dev fuel c' (aligned + block_size) end >>= λ c'' rest.
            (c'', done (rest.0, bytes ++ rest.1))

        joined :
            (c' c'' : Cache D) (bytes : List ℕ) (rest : ℕ × List ℕ)
            → aligned + block_size ≤ end
            → Reads c (aligned + 0) block_size c' bytes
            → Whole c' (aligned + block_size) end c'' rest
            → Whole c aligned end c'' (rest.0, bytes ++ rest.1)
        joined c' c'' bytes (next, more) fits r (w, b, o, s, either) =
            let z : aligned + 0 ≡ aligned = omega arith in
            let sum : block_size + (next - (aligned + block_size)) ≡ next - aligned = omega arith in
            let r' : Reads c aligned block_size c' bytes =
              (r.0, r.1, r.2 ∙ ap (λ (x : ℕ). bytes_at (bytes_of dev laws c) x block_size) z) in
            let all =
              Reads-append c c' c'' aligned block_size (next - (aligned + block_size)) bytes more
                (λ i p. omega (arith, either)) r' w in
            (
              (all.0, all.1, all.2 ∙ ap (bytes_at (bytes_of dev laws c) aligned) sum),
              b,
              omega arith,
              s,
              inl (omega (arith, either)),
            )

    pub read_tail_lem :
        (c : Cache D) (aligned end : ℕ)
        → IsValid dev laws c
        → aligned % block_size ≡ 0
        → end < aligned + block_size
        → end ≤ dev.device_size
        → Ensures E (Reads c aligned (end - aligned)) (read_tail dev c aligned end)
    unfolding read_tail
    read_tail_lem c aligned end v al near l =
        Ensures-if E (Reads c aligned (end - aligned)) (ltb aligned end)
          (read_piece dev c aligned 0 (end - aligned)) (c, done [])
          (λ more.
            let before : aligned < end = omega (tests, more) in
            let z : aligned + 0 ≡ aligned = omega arith in
            subst
              (λ (x : ℕ).
                Ensures E (Reads c x (end - aligned)) (read_piece dev c aligned 0 (end - aligned)))
              z
              (read_piece_lem dev laws fails c aligned 0 (end - aligned) v al (omega arith)
                (omega arith) (omega arith)))
          (λ none_left.
            let after : end ≤ aligned = omega (tests, none_left) in
            Reads-nothing c aligned (end - aligned) v (omega arith))
