-- ===== src/StorageDevice/Allocator/Steps.antt =====
-- The steps of an allocation: src/lib/storage/storage_device/src/buffer_allocator.rs.
use fuchsia_storage.Shared.{
  ℕ, zero, suc, ◌+◌, ◌-◌, ◌*◌, ◌≤◌, ◌<◌, ◌≡◌, refl, ap, ◌∙◌, sym, List, [], ◌∷◌, ◌++◌, none, some,
  length, length-set, get_elem?, set, arith, Option-cases, inl, inr,
}
use fuchsia_storage.StorageDevice.Power.{pow2, pow2_pos}
use fuchsia_storage.StorageDevice.Allocator.{
  done, Allocator, FreeLists, push, pop, pick, split, size_for_order, map_remove, map_insert,
  allocate_at,
}
use fuchsia_storage.StorageDevice.Allocator.Cover.{
  hit, cover_lists, unwrap-eq_done, done-injective, >>=-eq_done, assert-eq_done, cover-pop,
  cover_lists-set, cover-split, cover-map_remove, cover-map_insert,
}
use fuchsia_storage.StorageDevice.Allocator.Aligned.{
  Multiple, Aligned, Aligned-get, Aligned-set, AlignedList-pop, Aligned-split, Multiple-lower,
}
use fuchsia_storage.StorageDevice.Allocator.State.{
  IsValid, Recorded-map_remove, Recorded-map_insert,
}

length-push :
    (lists lists' : FreeLists) (i o : ℕ)
    → push lists i o ≡ done lists'
    → length lists' ≡ length lists
unfolding push
length-push lists lists' i o h =
    let (l, e, q) = unwrap-eq_done (get_elem? lists i) (λ l. done (set lists i (l ++ o ∷ []))) h in
    let same : lists' ≡ set lists i (l ++ o ∷ []) = cc q in
    rw same (length-set lists i (l ++ o ∷ []))

length-split :
    (b offset requested n : ℕ) (lists lists' : FreeLists)
    → split b offset requested n lists ≡ done lists'
    → length lists' ≡ length lists
unfolding split
length-split b offset requested zero lists lists' h =
    ap length (sym (done-injective lists lists' h))
length-split b offset requested (suc n) lists lists' h =
    let (l, e, q) = unwrap-eq_done (get_elem? lists (requested + n)) _ h in
    let (empty, q') = assert-eq_done _ _ q in
    let (mid, pushed, q'') =
      >>=-eq_done (push lists (requested + n) (offset + size_for_order (requested + n) b)) _ q' in
    length-split b offset requested n mid lists' q''
    ∙ length-push lists mid (requested + n) (offset + size_for_order (requested + n) b) pushed

pub hit_start : (w o : ℕ) → 0 < w → hit w o o ≡ 1
hit_start w o h = ground arith

-- What a successful `allocate_at` has done, step by step.
pub record Steps (a : Allocator) (requested picked : ℕ) (r : Allocator × ℕ) : Type 0 where
  pub list : List ℕ
  pub offset : ℕ
  pub rest : List ℕ
  pub lists : FreeLists
  pub got : get_elem? a.free_lists picked ≡ some list
  pub popped : pop list ≡ some (offset, rest)
  pub splits :
      split a.block_size offset requested (picked - requested) (set a.free_lists picked rest)
      ≡ done lists
  pub result : r ≡ (
    record a {
      free_lists = lists;
      allocation_map = map_insert offset (size_for_order requested a.block_size) a.allocation_map;
    },
    offset,
  )

pub allocate_at-Steps :
    (a : Allocator) (requested picked : ℕ) (r : Allocator × ℕ)
    → allocate_at a requested picked ≡ done r
    → Steps a requested picked r
unfolding allocate_at
allocate_at-Steps a requested picked r h =
    let (l, got, q) = unwrap-eq_done (get_elem? a.free_lists picked) _ h in
    let (p, popped, q') = unwrap-eq_done (pop l) _ q in
    let (lists, splits, q'') =
      >>=-eq_done
        (split a.block_size p.0 requested (picked - requested) (set a.free_lists picked p.1)) _
        q' in
    record {
      list = l;
      offset = p.0;
      rest = p.1;
      lists = lists;
      got = got;
      popped = popped;
      splits = splits;
      result = sym (done-injective _ _ q'');
    }

get_elem?-lt :
    (lists : FreeLists) (i : ℕ) (l : List ℕ) → get_elem? lists i ≡ some l → i < length lists
get_elem?-lt [] i l h = cc
get_elem?-lt (k ∷ lists) zero l h = omega arith
get_elem?-lt (k ∷ lists) (suc i) l h = omega (arith, get_elem?-lt lists i l h)

module _ (a : Allocator) (requested picked : ℕ) (r : Allocator × ℕ) (v : IsValid a)
    (up : requested ≤ picked) (s : Steps a requested picked r) where
  abbrev b : ℕ
  b = a.block_size

  block_pos : (k : ℕ) → 0 < size_for_order k b
  block_pos k = rw v.block (grind (arith, pow2_pos v.log_block, pow2_pos k))

  -- The popped region comes out of the lists and is spread over them, but for its first part.
  lists_after :
      (x : ℕ)
      → cover_lists b x s.lists + hit (size_for_order requested b) s.offset x
        ≡ cover_lists b x a.free_lists
  lists_after x =
      let whole : requested + (picked - requested) ≡ picked = omega arith in
      omega (
        arith,
        cover_lists-set b x a.free_lists picked s.list s.rest s.got,
        cover-pop (b * pow2 picked) x s.list s.offset s.rest s.popped,
        rw whole at (
            cover-split b x s.offset requested (picked - requested) (set a.free_lists picked s.rest)
              s.lists s.splits),
      )

  -- So it was not recorded as allocated.
  pub not_recorded : map_remove s.offset a.allocation_map ≡ none
  not_recorded = elim (Option-cases (map_remove s.offset a.allocation_map)) [
    | inl e ↦ e
    | inr ((w, m'), e) ↦
        let region =
          (Recorded-map_remove b (length a.free_lists) s.offset a.allocation_map w m' e
            v.recorded).0 in
        let w_pos : 0 < w = rw region.2 (block_pos region.0) in
        absurd (
          ground (
            arith,
            v.covers s.offset,
            lists_after s.offset,
            cover-map_remove s.offset s.offset a.allocation_map w m' e,
            hit_start w s.offset w_pos,
            hit_start (size_for_order requested b) s.offset (block_pos requested),
          ))
  ]

  offset_aligned : Multiple (size_for_order picked b) s.offset
  offset_aligned =
      (AlignedList-pop (b * pow2 picked) s.list s.offset s.rest s.popped
        (Aligned-get b a.free_lists picked s.list s.got v.aligned)).0

  length-lists : length s.lists ≡ length a.free_lists
  length-lists =
      length-split b s.offset requested (picked - requested) (set a.free_lists picked s.rest)
        s.lists s.splits
      ∙ length-set a.free_lists picked s.rest

  requested_aligned : Multiple (size_for_order requested b) s.offset
  requested_aligned =
      let whole : picked ≡ requested + (picked - requested) = omega arith in
      Multiple-lower b requested (picked - requested) s.offset (rw whole at offset_aligned)

  after_split : Aligned b s.lists
  after_split =
      let whole : picked ≡ requested + (picked - requested) = omega arith in
      Aligned-split b s.offset requested (picked - requested) (set a.free_lists picked s.rest)
        s.lists s.splits (rw whole at offset_aligned)
        (Aligned-set b a.free_lists picked s.rest
          (AlignedList-pop (b * pow2 picked) s.list s.offset s.rest s.popped
            (Aligned-get b a.free_lists picked s.list s.got v.aligned)).1
          v.aligned)

  abbrev pub after : Allocator
  after = record a {
    free_lists = s.lists;
    allocation_map = map_insert s.offset (size_for_order requested b) a.allocation_map;
  }

  pub after-IsValid : IsValid after
  after-IsValid = record {
    log_block = v.log_block;
    block = v.block;
    covers = λ x. omega (
      arith,
      v.covers x,
      lists_after x,
      cover-map_insert s.offset (size_for_order requested b) x a.allocation_map not_recorded,
    );
    aligned = after_split;
    recorded = rw length-lists (
        Recorded-map_insert b (length a.free_lists) s.offset (size_for_order requested b)
          a.allocation_map not_recorded
          (
            requested,
            omega (arith, get_elem?-lt a.free_lists picked s.list s.got),
            refl,
            requested_aligned,
          )
          v.recorded);
  }

  -- The region is recorded, and no part of it is free or recorded twice.
  pub after_covers :
      (x : ℕ) → hit (size_for_order requested b) s.offset x ≡ 1 → cover_lists b x s.lists ≡ 0
  after_covers x h = ground (arith, v.covers x, lists_after x)

pub pick-le : (i : ℕ) (lists : FreeLists) (k : ℕ) → pick i lists ≡ some k → i ≤ k
unfolding pick
pick-le i [] k h = cc
pick-le i ([] ∷ lists) k h = omega (arith, pick-le (i + 1) lists k h)
pick-le i ((o ∷ l) ∷ lists) k h = ground arith
