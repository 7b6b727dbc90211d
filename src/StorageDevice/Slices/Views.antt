-- ===== src/StorageDevice/Slices/Views.antt =====
-- References as views of memory: src/lib/storage/storage_device/src/buffer.rs.
use native.Mathlib.Nat.{suc-add}
use fuchsia_storage.Shared.{
  ℕ, zero, suc, ◌+◌, ◌-◌, ◌≤◌, ◌≡◌, refl, sym, ap, ◌∙◌, true, List, [], ◌∷◌, leb, length, take,
  drop, length-drop, length-take, le→leb, arith,
}
use fuchsia_storage.StorageDevice.Allocator.{done, assert}
use fuchsia_storage.StorageDevice.Slices.{
  Bound, included, excluded, unbounded, Range, start_of, end_of, subrange, split_range, index_slice,
  BufferRef, len, subslice, split_at,
}

-- The bytes of `memory` from `s` up to `e`.
abbrev pub bytes : List ℕ → ℕ → ℕ → List ℕ
bytes memory s e = take (e - s) (drop s memory)

-- The slice of a reference is what `memory` holds in its range.
pub record IsView (memory : List ℕ) (r : BufferRef) : Type 0 where
  pub ordered : r.range.start ≤ r.range.end
  pub inside : r.range.end ≤ length memory
  pub shows : r.slice ≡ bytes memory r.range.start r.range.end

drop_add : (m n : ℕ) (l : List ℕ) → drop n (drop m l) ≡ drop (m + n) l
drop_add zero n l = ap (λ t. drop t l) (omega arith)
drop_add (suc m) zero [] = rw suc-add
drop_add (suc m) (suc n) [] = rw suc-add
drop_add (suc m) n (x ∷ l) = rw suc-add (drop_add m n l)

take-drop-take :
    (c a n : ℕ) (l : List ℕ) → a + c ≤ n → take c (drop a (take n l)) ≡ take c (drop a l)
take-drop-take zero a n l h = refl
take-drop-take (suc c) zero zero l h = absurd (omega arith)
take-drop-take (suc c) zero (suc n) [] h = refl
take-drop-take (suc c) zero (suc n) (x ∷ l) h =
    ap (λ t. x ∷ t) (take-drop-take c zero n l (omega arith))
take-drop-take (suc c) (suc a) zero l h = absurd (omega arith)
take-drop-take (suc c) (suc a) (suc n) [] h = refl
take-drop-take (suc c) (suc a) (suc n) (x ∷ l) h = take-drop-take (suc c) a n l (omega arith)

take_empty : (n : ℕ) → ◌≡◌ {A = List ℕ} (take n []) []
take_empty zero = refl
take_empty (suc n) = refl

drop-take : (a n : ℕ) (l : List ℕ) → drop a (take n l) ≡ take (n - a) (drop a l)
drop-take zero n l = ap (λ k. take k l) (omega arith)
drop-take (suc a) zero l =
    let nothing : 0 ≡ 0 - suc a = omega arith in ap (λ k. take k (drop (suc a) l)) nothing
drop-take (suc a) (suc n) [] = sym (take_empty (suc n - suc a))
drop-take (suc a) (suc n) (x ∷ l) =
    drop-take a n l
    ∙ (let less : n - a ≡ suc n - suc a = omega arith in ap (λ k. take k (drop a l)) less)

-- A part of a part of the memory.
bytes-bytes :
    (memory : List ℕ) (s e low high : ℕ)
    → low ≤ high
    → s + high ≤ e
    → take (high - low) (drop low (bytes memory s e)) ≡ bytes memory (s + low) (s + high)
bytes-bytes memory s e low high h k =
    let size : s + high - (s + low) ≡ high - low = omega arith in
    take-drop-take (high - low) low (e - s) (drop s memory) (omega arith)
    ∙ ap (λ t. take (high - low) t) (drop_add s low memory)
    ∙ ap (λ n. take n (drop (s + low) memory)) (sym size)

view_length : (memory : List ℕ) (r : BufferRef) → IsView memory r → length r.slice ≡ len r
view_length memory r v =
    ap length v.shows
    ∙ length-take (len r) (drop r.range.start memory)
    ∙ omega (arith, length-drop r.range.start memory, v.inside, v.ordered)

start_shift : (base : ℕ) (low : Bound) → start_of base low ≡ base + start_of 0 low
start_shift base (included s) = omega arith
start_shift base (excluded s) = omega arith
start_shift base unbounded = omega arith

end_shift :
    (base last : ℕ) (high : Bound)
    → base ≤ last
    → end_of base last high ≡ base + end_of 0 (last - base) high
end_shift base last (included e) h = omega arith
end_shift base last (excluded e) h = omega arith
end_shift base last unbounded h = omega arith

index-in_bounds :
    (l : List ℕ) (low high : Bound) (n : ℕ)
    → length l ≡ n
    → start_of 0 low ≤ end_of 0 n high
    → end_of 0 n high ≤ n
    → index_slice l low high
      ≡ done (take (end_of 0 n high - start_of 0 low) (drop (start_of 0 low) l))
unfolding index_slice
index-in_bounds l low high n e p q = rw e (ground arith)

subrange-in_bounds :
    (range : Range) (low high : Bound)
    → range.start ≤ range.end
    → end_of 0 (range.end - range.start) high ≤ range.end - range.start
    → subrange range low high
      ≡ done (record {
        start = range.start + start_of 0 low;
        end = range.start + end_of 0 (range.end - range.start) high;
      })
unfolding subrange assert
subrange-in_bounds range low high p q =
    rw (start_shift range.start low, end_shift range.start range.end high p) (ground arith)

subslice-steps :
    (r : BufferRef) (low high : Bound) (slice : List ℕ) (range : Range)
    → index_slice r.slice low high ≡ done slice
    → subrange r.range low high ≡ done range
    → subslice r low high ≡ done (record { slice = slice; range = range })
unfolding subslice
subslice-steps r low high slice range p q = rw (p, q)

-- A slice of a reference, by bounds that lie in order within it, is taken without a panic: it shows
-- the bytes of the memory that its own range names, and the range lies in that of the reference by
-- the bounds.
pub subslice-IsView :
    (memory : List ℕ) (r : BufferRef) (low high : Bound)
    → IsView memory r
    → start_of 0 low ≤ end_of 0 (len r) high
    → end_of 0 (len r) high ≤ len r
    → (r' : BufferRef) × (subslice r low high ≡ done r')
      × IsView memory r'
      × (r'.range.start ≡ r.range.start + start_of 0 low)
      × (r'.range.end ≡ r.range.start + end_of 0 (len r) high)
subslice-IsView memory r low high v ordered inside =
    let s = start_of 0 low in
    let e = end_of 0 (len r) high in
    let slice = index-in_bounds r.slice low high (len r) (view_length memory r v) ordered inside in
    let range = subrange-in_bounds r.range low high v.ordered inside in
    (
      record {
        slice = take (e - s) (drop s r.slice);
        range = record { start = r.range.start + s; end = r.range.start + e };
      },
      subslice-steps r low high _ _ slice range,
      record {
        ordered = omega arith;
        inside = omega (arith, v.inside, v.ordered);
        shows =
            ap (λ t. take (e - s) (drop s t)) v.shows
            ∙ bytes-bytes memory r.range.start r.range.end s e ordered (omega (arith, v.ordered));
      },
      refl,
      refl,
    )

split_at-fits :
    (r : BufferRef) (mid : ℕ)
    → leb mid (length r.slice) ≡ true
    → split_at r mid
      ≡ done (
        record {
          slice = take mid r.slice;
          range = record { start = r.range.start; end = r.range.start + mid };
        },
        record {
          slice = drop mid r.slice;
          range = record { start = r.range.start + mid; end = r.range.start + len r };
        },
      )
unfolding split_at assert split_range
split_at-fits r mid h = rw h

-- A reference that is split at a point within it gives two that show the bytes of their ranges,
-- which are the two parts of its own.
pub split_at-IsView :
    (memory : List ℕ) (r : BufferRef) (mid : ℕ)
    → IsView memory r
    → mid ≤ len r
    → (first : BufferRef) × (second : BufferRef) × (split_at r mid ≡ done (first, second))
      × IsView memory first
      × IsView memory second
      × (first.range.start ≡ r.range.start)
      × (first.range.end ≡ r.range.start + mid)
      × (second.range.start ≡ r.range.start + mid)
      × (second.range.end ≡ r.range.end)
split_at-IsView memory r mid v h =
    let start = r.range.start in
    let whole = drop start memory in
    let fits : leb mid (length r.slice) ≡ true = rw (view_length memory r v) (le→leb _ _ h) in
    (
      record { slice = take mid r.slice; range = record { start = start; end = start + mid } },
      record {
        slice = drop mid r.slice;
        range = record { start = start + mid; end = start + len r };
      },
      split_at-fits r mid fits,
      record {
        ordered = omega arith;
        inside = omega (arith, v.inside, v.ordered);
        shows =
            ap (take mid) v.shows
            ∙ take-drop-take mid zero (len r) whole (omega arith)
            ∙ ap (λ k. take k whole) (omega arith);
      },
      record {
        ordered = omega (arith, v.ordered);
        inside = omega (arith, v.inside, v.ordered);
        shows =
            ap (drop mid) v.shows
            ∙ drop-take mid (len r) whole
            ∙ ap (take (len r - mid)) (drop_add start mid memory)
            ∙ ap (λ k. take k (drop (start + mid) memory)) (omega (arith, v.ordered));
      },
      refl,
      refl,
      refl,
      omega (arith, v.ordered),
    )
