-- ===== src/BlockClient/Cache/Reads.antt =====
-- `Cache::read_at`: src/lib/storage/block_client/rust/src/cache.rs.
use fuchsia_storage.Shared.{
  ℕ, suc, ◌+◌, ◌-◌, ◌%◌, ◌/◌, ◌≤◌, min, ◌≡◌, ap, ◌∙◌, false, List, ◌++◌, arith,
}
use fuchsia_storage.BlockClient.Memory.{bytes_at}
use fuchsia_storage.BlockClient.Cache.{
  Device, DeviceLaws, Cache, Outcome, done, failed, exceeds_device_size, block_size, ◌>>=◌,
  read_head, read_blocks, read_tail, exceeds, read_at,
}
use fuchsia_storage.BlockClient.Cache.Blocks.{
  Ensures, Ensures-if, >>=-Ensures, OnFailure, bytes_of, IsValid,
}
use fuchsia_storage.BlockClient.Cache.ReadParts.{
  exceeds_not, Reads, Reads-append_at, Head, Whole, read_head_lem, read_blocks_lem, read_tail_lem,
}

module _ {D : Type 0} (dev : Device D) (laws : DeviceLaws dev) where
  module _ {E : Type 0} (fails : OnFailure dev E) where
    -- The three parts of a read, put together.
    parts :
        (c c1 c2 c3 : Cache D) (offset size next1 next2 : ℕ) (b1 b2 b3 : List ℕ)
        → offset + size ≤ dev.device_size
        → Head dev laws c offset (offset + size) c1 (next1, b1)
        → Whole dev laws c1 next1 (offset + size) c2 (next2, b2)
        → Reads dev laws c2 next2 (offset + size - next2) c3 b3
        → Reads dev laws c offset size c3 (b1 ++ (b2 ++ b3))
    parts c c1 c2 c3 offset size next1 next2 b1 b2 b3 l (r1, al, le, near) (r2, _, gt, over, either)
          r3 =
        let end = offset + size in
        let n1 = min next1 end - offset in
        let r23 : Reads dev laws c1 next1 (next2 - next1 + (end - next2)) c3 (b2 ++ b3) =
          Reads-append_at dev laws c1 c2 c3 next1 next2 (next2 - next1) (end - next2) b2 b3
            (omega (arith, either)) (λ i p. omega (arith, either)) r2 r3 in
        let all =
          Reads-append_at dev laws c c1 c3 offset next1 n1 (next2 - next1 + (end - next2)) b1
            (b2 ++ b3) (omega (arith, either)) (λ i p. omega (arith, either)) r1 r23 in
        let sum : n1 + (next2 - next1 + (end - next2)) ≡ size = omega (arith, either) in
        (all.0, all.1, all.2 ∙ ap (bytes_at (bytes_of dev laws c) offset) sum)

    -- A read returns the bytes that the cache stands for, and leaves them all as they were; it
    -- fails only where a call of the device does.
    pub read_at-Reads :
        (c : Cache D) (size offset : ℕ)
        → IsValid dev laws c
        → offset + size ≤ dev.device_size
        → Ensures E (Reads dev laws c offset size) (read_at dev c size offset)
    unfolding read_at exceeds
    read_at-Reads c size offset v l =
        let end = offset + size in
        let fits : exceeds dev size offset ≡ false = exceeds_not dev size offset l in
        Ensures-if E (Reads dev laws c offset size) (exceeds dev size offset)
          (c, failed exceeds_device_size)
          (read_head dev c (offset - offset % block_size) offset end >>= after_head)
          (λ beyond. absurd (cc))
          (λ _.
            >>=-Ensures E (Head dev laws c offset end) (Reads dev laws c offset size)
              (read_head dev c (offset - offset % block_size) offset end) after_head
              (read_head_lem dev laws fails c offset end v (omega arith) l)
              (λ c1 head h.
                >>=-Ensures E (Whole dev laws c1 head.0 end) (Reads dev laws c offset size)
                  (read_blocks dev (suc (size / block_size)) c1 head.0 end) (after_blocks head)
                  (read_blocks_lem dev laws fails (suc (size / block_size)) c1 head.0 end h.0.0 h.1
                    l (omega (arith, h)))
                  (λ c2 whole w.
                    >>=-Ensures E (Reads dev laws c2 whole.0 (end - whole.0))
                      (Reads dev laws c offset size) (read_tail dev c2 whole.0 end)
                      (λ c3 tail. (c3, done (head.1 ++ (whole.1 ++ tail))))
                      (read_tail_lem dev laws fails c2 whole.0 end w.0.0 w.1 (omega (arith, w)) l)
                      (λ c3 tail t.
                        parts c c1 c2 c3 offset size head.0 whole.0 head.1 whole.1 tail l h w t))))
      where
        after_blocks : ℕ × List ℕ → Cache D → ℕ × List ℕ → Cache D × Outcome (List ℕ)
        after_blocks head c2 whole = read_tail dev c2 whole.0 (offset + size) >>= λ c3 tail.
            (c3, done (head.1 ++ (whole.1 ++ tail)))

        after_head : Cache D → ℕ × List ℕ → Cache D × Outcome (List ℕ)
        after_head c1 head =
            read_blocks dev (suc (size / block_size)) c1 head.0 (offset + size)
            >>= after_blocks head
