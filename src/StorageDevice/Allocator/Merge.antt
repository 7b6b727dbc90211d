-- ===== src/StorageDevice/Allocator/Merge.antt =====
-- The merge of a freed region with its buddies:
-- src/lib/storage/storage_device/src/buffer_allocator.rs.
use native.Mathlib.Nat.{add_comm}
use native.Mathlib.Numerals.{add-one}
use fuchsia_storage.Shared.{
  ℕ, zero, suc, ◌+◌, ◌-◌, ◌*◌, ◌/◌, ◌%◌, ◌<◌, ◌≡◌, subst, refl, ap, ◌∙◌, sym, List, [], ◌∷◌, some,
  ◌==◌, length, length-set, get_elem?, set, arith, Bool-cases, inl, inr, min,
}
use fuchsia_storage.StorageDevice.Power.{pow2, pow2_add}
use fuchsia_storage.StorageDevice.Xor.{neighbour, bit_xor-pow2}
use fuchsia_storage.StorageDevice.Allocator.{
  Outcome, done, FreeLists, size_for_order, found, missing, binary_search, remove_at, find_buddy,
  merge,
}
use fuchsia_storage.StorageDevice.Allocator.Cover.{
  hit, cover_lists, cover_lists-set, cover-binary_search, Search-cases,
}
use fuchsia_storage.StorageDevice.Allocator.Aligned.{
  Multiple, Aligned, Aligned-get, Aligned-set, AlignedList-remove_at,
}

-- Where the block size is a power of two, the buddy of the `q`th region of its length is the region
-- that makes up one of twice the length with it.
pub find_buddy-neighbour :
    (b m order q : ℕ)
    → b ≡ pow2 m
    → find_buddy b (q * size_for_order order b) order ≡ neighbour q * size_for_order order b
unfolding find_buddy
find_buddy-neighbour b m order q e =
    let power : b * pow2 order ≡ pow2 (m + order) = rw (e, pow2_add m order) refl in
    rw power (bit_xor-pow2 q (m + order))

hit_pair : (w o x : ℕ) → hit w o x + hit w (o + w) x ≡ hit (2 * w) o x
hit_pair w o x = ground arith

-- The two buddies cover what one region of twice the length at the lower of them covers.
hit_buddies :
    (w q x : ℕ)
    → (hit w (q * w) x + hit w (neighbour q * w) x ≡ hit (2 * w) (min (q * w) (neighbour q * w)) x)
      × Multiple (2 * w) (min (q * w) (neighbour q * w))
hit_buddies w q x = elim (Bool-cases (q % 2 == 0)) [
  | inl even ↦
      let next : (q + 1) * w ≡ q * w + w = omega arith in
      let low : min (q * w) (q * w + w) ≡ q * w = omega arith in
      let half : q ≡ q / 2 * 2 = ground arith in
      rw (even, next, low) (hit_pair w (q * w) x, (q / 2, ap (λ (t : ℕ). t * w) half ∙ omega arith))
  | inr odd ↦
      let half : q - 1 ≡ q / 2 * 2 = ground arith in
      let lower : q ≡ (q - 1) + 1 = ground arith in
      let up : q * w ≡ (q - 1) * w + w = ap (λ (t : ℕ). t * w) lower ∙ omega arith in
      let low : min ((q - 1) * w + w) ((q - 1) * w) ≡ (q - 1) * w = omega arith in
      rw (odd, up, low)
        (
          add_comm _ _ ∙ hit_pair w ((q - 1) * w) x,
          (q / 2, ap (λ (t : ℕ). t * w) half ∙ omega arith),
        )
]

pub get_elem?-some :
    (lists : FreeLists) (i : ℕ) → i < length lists → (l : List ℕ) × (get_elem? lists i ≡ some l)
get_elem?-some [] i h = absurd (omega arith)
get_elem?-some (l ∷ lists) zero h = (l, refl)
get_elem?-some (l ∷ lists) (suc i) h = get_elem?-some lists i (omega arith)

-- What the merge of the region of `order` at `offset` into `lists` ends with.
pub record IsMerged (b offset order : ℕ) (lists lists' : FreeLists) (offset' order' : ℕ)
    : Type 0 where
  pub covers :
      (x : ℕ)
      → cover_lists b x lists' + hit (size_for_order order' b) offset' x
        ≡ cover_lists b x lists + hit (size_for_order order b) offset x
  pub multiple : Multiple (size_for_order order' b) offset'
  pub aligned : Aligned b lists'
  pub same_length : length lists' ≡ length lists
  pub in_range : order' < length lists

-- The merge succeeds, with such a result.
abbrev pub Merges : ℕ → ℕ → ℕ → FreeLists → Outcome (FreeLists × ℕ × ℕ) → Type 0
Merges b offset order lists r =
    (lists' : FreeLists) × (offset' : ℕ) × (order' : ℕ) × (r ≡ done (lists', offset', order'))
    × IsMerged b offset order lists lists' offset' order'

-- One round that finds the buddy, followed by the rest.
IsMerged-round :
    (b m order q i : ℕ) (lists : FreeLists) (l : List ℕ) (lists' : FreeLists) (offset' order' : ℕ)
    → b ≡ pow2 m
    → get_elem? lists order ≡ some l
    → binary_search (neighbour q * size_for_order order b) l ≡ found i
    → IsMerged b
        (min (q * size_for_order order b) (neighbour q * size_for_order order b))
        (order + 1)
        (set lists order (remove_at i l))
        lists'
        offset'
        order'
    → IsMerged b (q * size_for_order order b) order lists lists' offset' order'
IsMerged-round b m order q i lists l lists' offset' order' e got there r =
    let w = size_for_order order b in
    let up : b * pow2 (order + 1) ≡ 2 * (b * pow2 order) = rw add-one (omega arith) in
    record {
      covers = λ x.
          let later = rw up at (r.covers x) in
          omega (
            arith,
            later,
            (hit_buddies w q x).0,
            cover_lists-set b x lists order l (remove_at i l) got,
            cover-binary_search (neighbour q * w) w x i l there,
          );
      multiple = r.multiple;
      aligned = r.aligned;
      same_length = r.same_length ∙ length-set lists order (remove_at i l);
      in_range = omega (arith, r.in_range, length-set lists order (remove_at i l));
    }

merge-missing :
    (b n offset order i : ℕ) (lists : FreeLists) (l : List ℕ)
    → get_elem? lists order ≡ some l
    → binary_search (find_buddy b offset order) l ≡ missing i
    → merge b (suc n) offset order lists ≡ done (lists, offset, order)
unfolding merge
merge-missing b n offset order i lists l got s = ground arith

merge-found :
    (b n offset order i : ℕ) (lists : FreeLists) (l : List ℕ)
    → get_elem? lists order ≡ some l
    → binary_search (find_buddy b offset order) l ≡ found i
    → merge b (suc n) offset order lists
      ≡ merge b n
          (min offset (find_buddy b offset order))
          (order + 1)
          (set lists order (remove_at i l))
unfolding merge
merge-found b n offset order i lists l got s = ground arith

pub merge-Merges :
    (b m n order q : ℕ) (lists : FreeLists)
    → b ≡ pow2 m
    → order + n < length lists
    → Aligned b lists
    → Merges b
        (q * size_for_order order b)
        order
        lists
        (merge b n (q * size_for_order order b) order lists)
unfolding merge
merge-Merges b m zero order q lists e room a = (
  lists,
  q * size_for_order order b,
  order,
  refl,
  record {
    covers = λ x. refl;
    multiple = (q, refl);
    aligned = a;
    same_length = refl;
    in_range = omega arith;
  },
)
merge-Merges b m (suc n) order q lists e room a =
    let w = size_for_order order b in
    let (l, got) = get_elem?-some lists order (omega arith) in
    let buddy = find_buddy-neighbour b m order q e in
    elim (Search-cases (binary_search (neighbour q * size_for_order order b) l)) [
      | inr (i, s) ↦ rw (merge-missing b n (q * w) order i lists l got (rw buddy s)) (
        lists,
        q * w,
        order,
        refl,
        record {
          covers = λ x. refl;
          multiple = (q, refl);
          aligned = a;
          same_length = refl;
          in_range = omega arith;
        },
      )
      | inl (i, s) ↦
          let lists'' = set lists order (remove_at i l) in
          let (q', half) = (hit_buddies w q 0).1 in
          let low : min (q * w) (neighbour q * w) ≡ q' * size_for_order (order + 1) b =
            half ∙ rw add-one (omega arith) in
          let aligned'' : Aligned b lists'' =
            Aligned-set b lists order (remove_at i l)
              (AlignedList-remove_at w i l (Aligned-get b lists order l got a)) a in
          let ih =
            merge-Merges b m n (order + 1) q' lists'' e
              (omega (arith, length-set lists order (remove_at i l))) aligned'' in
          let (lists', offset', order', runs, merged) =
            subst (λ o. Merges b o (order + 1) lists'' (merge b n o (order + 1) lists'')) (sym low)
              ih in
          (
            lists',
            offset',
            order',
            merge-found b n (q * w) order i lists l got (rw buddy s) ∙ rw buddy runs,
            IsMerged-round b m order q i lists l lists' offset' order' e got s merged,
          )
    ]
