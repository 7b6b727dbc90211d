-- ===== src/StorageDevice/Slices.antt =====
-- References into a buffer: `BufferRef` and `MutableBufferRef` of
-- src/lib/storage/storage_device/src/buffer.rs, which carry the same data: a slice of memory, given
-- by its bytes, and the range that it is said to cover.
pub mod Views
mod Tests
use fuchsia_storage.Shared.{
  ℕ, ◌+◌, ◌-◌, Bool, true, false, ◌||◌, List, ltb, leb, length, take, drop, if◌then◌else◌,
}
use fuchsia_storage.StorageDevice.Allocator.{Outcome, done, panic, assert, ◌>>=◌}

-- `Bound<usize>`
pub data Bound : Type 0 where
  included excluded : ℕ → Bound
  unbounded : Bound

-- `Range<usize>`
pub record Range : Type 0 where
  pub start : ℕ
  pub end : ℕ

abbrev pub start_of : ℕ → Bound → ℕ
start_of base (included s) = base + s
start_of base (excluded s) = base + s + 1
start_of base unbounded = base

abbrev pub end_of : ℕ → ℕ → Bound → ℕ
end_of base last (included e) = base + e + 1
end_of base last (excluded e) = base + e
end_of base last unbounded = last

unfoldable pub subrange : Range → Bound → Bound → Outcome Range
unfolding assert
subrange source low high =
    let inner : Range = record {
      start = start_of source.start low;
      end = end_of source.start source.end high;
    } in
    assert (leb inner.end source.end) (done inner)

unfoldable pub split_range : Range → ℕ → Range × Range
split_range range mid =
    let l = range.end - range.start in
    let base = range.start in
    (record { start = base; end = base + mid }, record { start = base + mid; end = base + l })

-- Indexing of a slice by a range, which panics out of bounds.
unfoldable pub index_slice : List ℕ → Bound → Bound → Outcome (List ℕ)
index_slice slice low high =
    let s = start_of 0 low in
    let e = end_of 0 (length slice) high in
    if ltb e s || ltb (length slice) e then panic else done (take (e - s) (drop s slice))

pub record BufferRef : Type 0 where
  pub slice : List ℕ
  pub range : Range

abbrev pub len : BufferRef → ℕ
len r = r.range.end - r.range.start

unfoldable pub subslice : BufferRef → Bound → Bound → Outcome BufferRef
unfolding index_slice subrange
subslice r low high = index_slice r.slice low high >>= λ slice.
    subrange r.range low high >>= λ range. done (record { slice = slice; range = range })

-- `split_at` of a slice panics where `mid` is past its end.
unfoldable pub split_at : BufferRef → ℕ → Outcome (BufferRef × BufferRef)
unfolding assert split_range
split_at r mid =
    let ranges = split_range r.range mid in
    assert (leb mid (length r.slice)) (
      done (
        record { slice = take mid r.slice; range = ranges.0 },
        record { slice = drop mid r.slice; range = ranges.1 },
      ))

-- The same of a `MutableBufferRef`, which is used up.
abbrev pub subslice_mut : BufferRef → Bound → Bound → Outcome BufferRef
subslice_mut r low high = index_slice r.slice low high >>= λ slice.
    subrange r.range low high >>= λ range. done (record r { slice = slice; range = range })

abbrev pub split_at_mut : BufferRef → ℕ → Outcome (BufferRef × BufferRef)
split_at_mut r mid =
    let ranges = split_range r.range mid in
    assert (leb mid (length r.slice)) (
      done (
        record { slice = take mid r.slice; range = ranges.0 },
        record { slice = drop mid r.slice; range = ranges.1 },
      ))
