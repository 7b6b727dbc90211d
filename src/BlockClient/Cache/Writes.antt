-- ===== src/BlockClient/Cache/Writes.antt =====
-- `Cache::write_at`: src/lib/storage/block_client/rust/src/cache.rs.
use fuchsia_storage.Shared.{
  ℕ, suc, ◌+◌, ◌-◌, ◌%◌, ◌/◌, ◌<◌, ◌≤◌, min, ◌≡◌, ap, ◌∙◌, false, ◌⊎◌, List, length, drop,
  length-drop, leb, arith, inl, inr, tests, Bool-cases,
}
use fuchsia_storage.BlockClient.Memory.{fill, contents}
use fuchsia_storage.BlockClient.Cache.{
  Device, DeviceLaws, Cache, Outcome, done, failed, exceeds_device_size, block_size, ◌>>=◌, exceeds,
}
use fuchsia_storage.BlockClient.Cache.Write.{write_head, write_blocks, write_tail, write_at}
use fuchsia_storage.BlockClient.Cache.Blocks.{
  Ensures, Ensures-if, >>=-Ensures, OnFailure, bytes_of, IsValid,
}
use fuchsia_storage.BlockClient.Cache.Pieces.{Writes}
use fuchsia_storage.BlockClient.Cache.ReadParts.{exceeds_not}
use fuchsia_storage.BlockClient.Cache.Wrote.{Wrote-append, Wrote, Head, Whole}
use fuchsia_storage.BlockClient.Cache.WriteParts.{write_head_lem, write_blocks_lem, write_tail_lem}

module _ {D : Type 0} (dev : Device D) (laws : DeviceLaws dev) where
  module _ {E : Type 0} (fails : OnFailure dev E) where
    -- The three parts of a write, put together.
    parts :
        (c c1 c2 c3 : Cache D) (offset next1 next2 : ℕ) (buf b1 b2 b3 : List ℕ)
        → Head dev laws c offset buf c1 (next1, b1)
        → Whole dev laws c1 next1 (offset + length buf) b1 c2 (next2, b2)
        → length b2 ≡ offset + length buf - next2
        → Wrote dev laws c2 next2 (length b2) b2 c3 b3
        → Writes dev laws c offset buf c3 tt
    parts c c1 c2 c3 offset next1 next2 buf b1 b2 b3 (w1, al, le, near) (w2, _, gt, over, either)
          rest w3 =
        let end = offset + length buf in
        let n1 = min next1 end - offset in
        let n2 = next2 - next1 in
        let w23 =
          Wrote-append dev laws c1 c2 c3 next1 next2 n2 (length b2) b1 b2 b3 (place2 either gt rest)
            w2 w3 in
        let all =
          Wrote-append dev laws c c1 c3 offset next1 n1 (n2 + length b2) buf b1 b3
            (place1 either le gt rest) w1 w23 in
        let sum : n1 + (n2 + length b2) ≡ length buf = omega (arith, either) in
        (
          all.0,
          λ a l.
              all.1 a l ∙ ap (λ (x : ℕ). fill (bytes_of dev laws c) offset x (contents buf) a) sum,
        )
      where
        place2 :
            (next2 ≤ offset + length buf) ⊎ (next2 ≡ next1)
            → next1 ≤ next2
            → length b2 ≡ offset + length buf - next2
            → (next2 ≡ next1 + (next2 - next1)) ⊎ (length b2 ≡ 0)
        place2 either gt rest = inl (omega arith)

        place1 :
            (next2 ≤ offset + length buf) ⊎ (next2 ≡ next1)
            → offset ≤ next1
            → next1 ≤ next2
            → length b2 ≡ offset + length buf - next2
            → (next1 ≡ offset + (min next1 (offset + length buf) - offset))
              ⊎ (next2 - next1 + length b2 ≡ 0)
        place1 either le gt rest = elim (Bool-cases (leb next1 (offset + length buf))) [
          | inl q ↦ let p : next1 ≤ offset + length buf = omega (tests, q) in inl (omega arith)
          | inr q ↦
              let p : offset + length buf < next1 = omega (tests, q) in inr (omega (arith, either))
        ]

    -- A write leaves the cache standing for what it did, with the buffer in its place; it fails
    -- only where a call of the device does.
    pub write_at-Writes :
        (c : Cache D) (buf : List ℕ) (offset : ℕ)
        → IsValid dev laws c
        → offset + length buf ≤ dev.device_size
        → Ensures E (Writes dev laws c offset buf) (write_at dev c buf offset)
    unfolding write_at exceeds
    write_at-Writes c buf offset v l =
        let end = offset + length buf in
        let fits : exceeds dev (length buf) offset ≡ false =
          exceeds_not dev (length buf) offset l in
        Ensures-if E (Writes dev laws c offset buf) (exceeds dev (length buf) offset)
          (c, failed exceeds_device_size)
          (write_head dev c (offset - offset % block_size) offset end buf >>= after_head)
          (λ beyond. absurd (cc))
          (λ _.
            >>=-Ensures E (Head dev laws c offset buf) (Writes dev laws c offset buf)
              (write_head dev c (offset - offset % block_size) offset end buf) after_head
              (write_head_lem dev laws fails c offset buf v l)
              (λ c1 head h.
                let left : length head.1 ≡ end - head.0 =
                  ap (λ (b : List ℕ). length b) h.0.2
                  ∙ omega (arith, length-drop {0} (min head.0 end - offset) buf, h) in
                >>=-Ensures E (Whole dev laws c1 head.0 end head.1) (Writes dev laws c offset buf)
                  (write_blocks dev (suc (length buf / block_size)) c1 head.0 end head.1)
                  after_blocks
                  (write_blocks_lem dev laws fails (suc (length buf / block_size)) c1 head.0 end
                    head.1 h.0.0 h.1 l left (omega (arith, h)))
                  (λ c2 rest w.
                    let last : length rest.1 ≡ end - rest.0 =
                      ap (λ (b : List ℕ). length b) w.0.2
                      ∙ omega (arith, length-drop {0} (rest.0 - head.0) head.1, w) in
                    finish c1 c2 head rest h w last (write_tail dev c2 rest.0 end rest.1) (
                      write_tail_lem dev laws fails c2 rest.0 end rest.1 w.0.0 w.1
                        (omega (arith, w)) l last))))
      where
        after_blocks : Cache D → ℕ × List ℕ → Cache D × Outcome Unit
        after_blocks c2 rest = write_tail dev c2 rest.0 (offset + length buf) rest.1

        after_head : Cache D → ℕ × List ℕ → Cache D × Outcome Unit
        after_head c1 head =
            write_blocks dev (suc (length buf / block_size)) c1 head.0 (offset + length buf) head.1
            >>= after_blocks

        finish :
            (c1 c2 : Cache D) (head rest : ℕ × List ℕ)
            → Head dev laws c offset buf c1 head
            → Whole dev laws c1 head.0 (offset + length buf) head.1 c2 rest
            → length rest.1 ≡ offset + length buf - rest.0
            → (r : Cache D × Outcome Unit)
            → Ensures E
                (λ c3 _.
                  Wrote dev laws c2 rest.0 (length rest.1) rest.1 c3 (drop (length rest.1) rest.1))
                r
            → Ensures E (Writes dev laws c offset buf) r
        finish c1 c2 (next1, b1) (next2, b2) h w last (c3, done u) t =
            parts c c1 c2 c3 offset next1 next2 buf b1 b2 (drop (length b2) b2) h w last t
        finish c1 c2 head rest h w last (c3, failed e) t = t
