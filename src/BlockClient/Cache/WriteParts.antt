-- ===== src/BlockClient/Cache/WriteParts.antt =====
-- The three parts of a write, before, on and after whole blocks:
-- src/lib/storage/block_client/rust/src/cache.rs.
use fuchsia_storage.Shared.{
  ℕ, zero, suc, ◌+◌, ◌-◌, ◌%◌, ◌/◌, ◌<◌, ◌≤◌, min, ◌≡◌, refl, subst, List, length, take, drop,
  length-take, length-drop, leb, ltb, arith, inl, inr, tests,
}
use fuchsia_storage.BlockClient.Memory.{fill, contents}
use fuchsia_storage.BlockClient.Cache.{
  Device, DeviceLaws, Cache, Outcome, done, failed, block_size, ◌>>=◌,
}
use fuchsia_storage.BlockClient.Cache.Write.{
  write_piece, write_block, write_head, write_blocks, write_tail,
}
use fuchsia_storage.BlockClient.Cache.Blocks.{
  Ensures, Ensures-if, >>=-Ensures, OnFailure, bytes_of, IsValid,
}
use fuchsia_storage.BlockClient.Cache.Pieces.{Writes, write_piece-Writes, write_block-Writes}
use fuchsia_storage.BlockClient.Cache.Wrote.{
  Wrote-take, Wrote-nothing, Wrote-append, Wrote, Head, Whole,
}

module _ {D : Type 0} (dev : Device D) (laws : DeviceLaws dev) where
  module _ {E : Type 0} (fails : OnFailure dev E) where
    pub write_head_lem :
        (c : Cache D) (offset : ℕ) (buf : List ℕ)
        → IsValid dev laws c
        → offset + length buf ≤ dev.device_size
        → Ensures E
            (Head dev laws c offset buf)
            (write_head dev c (offset - offset % block_size) offset (offset + length buf) buf)
    unfolding write_head
    write_head_lem c offset buf v l =
        Ensures-if E (Head dev laws c offset buf) (ltb aligned offset)
          (write_piece dev c aligned skip (take n buf) >>= λ c' _.
            (c', done (aligned + block_size, drop n buf)))
          (c, done (aligned, buf))
          (λ some_head.
            let before : aligned < offset = omega (tests, some_head) in
            let short : length (take n buf) ≡ n = omega (arith, length-take {0} n buf) in
            let at : aligned + skip ≡ offset = omega arith in
            >>=-Ensures E (Writes dev laws c (aligned + skip) (take n buf))
              (Head dev laws c offset buf) (write_piece dev c aligned skip (take n buf))
              (λ c' _. (c', done (aligned + block_size, drop n buf)))
              (write_piece-Writes dev laws fails c aligned skip (take n buf) v (omega arith)
                (omega arith) (omega arith))
              (λ c' u w. (
                Wrote-take dev laws c c' offset n buf (omega arith) (moved c' at u w),
                omega arith,
                omega arith,
                omega arith,
              )))
          (λ no_head.
            let at : offset ≤ aligned = omega (tests, no_head) in
            (
              Wrote-nothing dev laws c offset (min aligned (offset + length buf) - offset) buf v
                  (omega arith),
              omega arith,
              omega arith,
              omega arith,
            ))
      where
        aligned : ℕ
        aligned = offset - offset % block_size

        skip : ℕ
        skip = offset - aligned

        n : ℕ
        n = min (aligned + block_size) (offset + length buf) - offset

        moved :
            (c' : Cache D)
            → aligned + skip ≡ offset
            → (u : Unit {0}) → Writes dev laws c (aligned + skip) (take n buf) c' u
            → Writes dev laws c offset (take n buf) c' tt
        moved c' at u (v', w) = (
          v',
          subst
              (λ (x : ℕ).
                (a : ℕ)
                → a < dev.device_size
                → bytes_of dev laws c' a
                  ≡ fill (bytes_of dev laws c) x (length (take n buf)) (contents (take n buf)) a)
              at w,
        )

    pub write_blocks_lem :
        (fuel : ℕ) (c : Cache D) (aligned end : ℕ) (buf : List ℕ)
        → IsValid dev laws c
        → aligned % block_size ≡ 0
        → end ≤ dev.device_size
        → length buf ≡ end - aligned
        → (end - aligned) / block_size < fuel
        → Ensures E (Whole dev laws c aligned end buf) (write_blocks dev fuel c aligned end buf)
    unfolding write_blocks
    write_blocks_lem zero c aligned end buf v al l all enough = absurd (omega arith)
    write_blocks_lem (suc fuel) c aligned end buf v al l all enough =
        Ensures-if E (Whole dev laws c aligned end buf) (leb (aligned + block_size) end)
          (write_block dev c aligned (take block_size buf) >>= next) (c, done (aligned, buf))
          (λ more.
            let fits : aligned + block_size ≤ end = omega (tests, more) in
            let short : length (take block_size buf) ≡ block_size =
              omega (arith, length-take {0} block_size buf) in
            let rest : length (drop block_size buf) ≡ end - (aligned + block_size) =
              omega (arith, length-drop {0} block_size buf) in
            >>=-Ensures E (Writes dev laws c aligned (take block_size buf))
              (Whole dev laws c aligned end buf) (write_block dev c aligned (take block_size buf))
              next
              (write_block-Writes dev laws fails c aligned (take block_size buf) v al (omega arith)
                short)
              (λ c' u w.
                longer fits c' w
                  (write_blocks dev fuel c' (aligned + block_size) end (drop block_size buf))
                  (write_blocks_lem fuel c' (aligned + block_size) end (drop block_size buf) w.0
                    (omega arith) l rest (omega arith))))
          (λ last.
            let over : end < aligned + block_size = omega (tests, last) in
            (
              Wrote-nothing dev laws c aligned (aligned - aligned) buf v (omega arith),
              al,
              omega arith,
              over,
              inr refl,
            ))
      where
        next : Cache D → Unit {0} → Cache D × Outcome (ℕ × List ℕ)
        next c' _ = write_blocks dev fuel c' (aligned + block_size) end (drop block_size buf)

        longer :
            aligned + block_size ≤ end
            → (c' : Cache D) → Writes dev laws c aligned (take block_size buf) c' tt
            → (r : Cache D × Outcome (ℕ × List ℕ))
            → Ensures E (Whole dev laws c' (aligned + block_size) end (drop block_size buf)) r
            → Ensures E (Whole dev laws c aligned end buf) r
        longer fits c' w (c'', failed e) h = h
        longer fits c' w (c'', done (after, rest)) (t, b, o, s, either) =
            let first = Wrote-take dev laws c c' aligned block_size buf (omega arith) w in
            let sum : block_size + (after - (aligned + block_size)) ≡ after - aligned =
              omega arith in
            let both =
              Wrote-append dev laws c c' c'' aligned (aligned + block_size) block_size
                (after - (aligned + block_size)) buf (drop block_size buf) rest (inl refl) first
                t in
            (
              subst (λ (x : ℕ). Wrote dev laws c aligned x buf c'' rest) sum both,
              b,
              omega arith,
              s,
              inl (omega (arith, either)),
            )

    pub write_tail_lem :
        (c : Cache D) (aligned end : ℕ) (buf : List ℕ)
        → IsValid dev laws c
        → aligned % block_size ≡ 0
        → end < aligned + block_size
        → end ≤ dev.device_size
        → length buf ≡ end - aligned
        → Ensures E
            (λ c' _. Wrote dev laws c aligned (length buf) buf c' (drop (length buf) buf))
            (write_tail dev c aligned end buf)
    unfolding write_tail
    write_tail_lem c aligned end buf v al near l all =
        Ensures-if E (λ c' _. Wrote dev laws c aligned (length buf) buf c' (drop (length buf) buf))
          (ltb aligned end) (write_piece dev c aligned 0 buf) (c, done tt)
          (λ more.
            let before : aligned < end = omega (tests, more) in
            let z : aligned + 0 ≡ aligned = omega arith in
            tail_of (write_piece dev c aligned 0 buf) (
              subst
                (λ (x : ℕ). Ensures E (Writes dev laws c x buf) (write_piece dev c aligned 0 buf)) z
                (write_piece-Writes dev laws fails c aligned 0 buf v al (omega arith)
                  (omega arith))))
          (λ none_left.
            let after : end ≤ aligned = omega (tests, none_left) in
            let e : length buf ≡ 0 = omega arith in (v, λ a p. ground arith, refl))
      where
        tail_of :
            (r : Cache D × Outcome Unit)
            → Ensures E (Writes dev laws c aligned buf) r
            → Ensures E
                (λ c' _. Wrote dev laws c aligned (length buf) buf c' (drop (length buf) buf))
                r
        tail_of (c', done u) (v', w) = (v', w, refl)
        tail_of (c', failed e) h = h
