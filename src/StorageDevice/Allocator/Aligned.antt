-- ===== src/StorageDevice/Allocator/Aligned.antt =====
-- The alignment of regions: src/lib/storage/storage_device/src/buffer_allocator.rs.
use fuchsia_storage.Shared.{
  ℕ, zero, suc, ◌+◌, ◌*◌, ◌≡◌, subst, ◌∙◌, List, [], ◌∷◌, ◌++◌, some, get_elem?, set, arith,
  Option-cases, inl, inr,
}
use fuchsia_storage.StorageDevice.Power.{pow2, pow2_add}
use fuchsia_storage.StorageDevice.Allocator.{
  done, FreeLists, push, pop, split, is_empty, size_for_order, remove_at, insert_at,
}
use fuchsia_storage.StorageDevice.Allocator.Cover.{unwrap-eq_done, >>=-eq_done, assert-eq_done}

-- `o` is a multiple of `w`.
abbrev pub Multiple : ℕ → ℕ → Type 0
Multiple w o = (q : ℕ) × (o ≡ q * w)

abbrev pub AlignedList : ℕ → List ℕ → Type 0
AlignedList w [] = Unit {0}
AlignedList w (o ∷ l) = Multiple w o × AlignedList w l

abbrev pub Aligned : ℕ → FreeLists → Type 0
Aligned w [] = Unit {0}
Aligned w (l ∷ lists) = AlignedList w l × Aligned (2 * w) lists

AlignedList-append :
    (w o : ℕ) (l : List ℕ) → AlignedList w l → Multiple w o → AlignedList w (l ++ o ∷ [])
AlignedList-append w o [] a m = (m, tt)
AlignedList-append w o (p ∷ l) a m = (a.0, AlignedList-append w o l a.1 m)

pub AlignedList-pop :
    (w : ℕ) (l : List ℕ) (o : ℕ) (rest : List ℕ)
    → pop l ≡ some (o, rest)
    → AlignedList w l
    → Multiple w o × AlignedList w rest
unfolding pop
AlignedList-pop w [] o rest h a = cc
AlignedList-pop w (p ∷ l) o rest h a = elim (Option-cases (pop l)) [
  | inl e ↦ let same : (o ≡ p) × (rest ≡ []) = ground arith in rw (same.0, same.1) (a.0, tt)
  | inr ((o', rest'), e) ↦
      let same : (o ≡ o') × (rest ≡ p ∷ rest') = ground arith in
      let ih = AlignedList-pop w l o' rest' e a.1 in rw (same.0, same.1) (ih.0, (a.0, ih.1))
]

pub AlignedList-remove_at : (w i : ℕ) (l : List ℕ) → AlignedList w l → AlignedList w (remove_at i l)
unfolding remove_at
AlignedList-remove_at w i [] a = tt
AlignedList-remove_at w zero (x ∷ l) a = a.1
AlignedList-remove_at w (suc i) (x ∷ l) a = (a.0, AlignedList-remove_at w i l a.1)

pub AlignedList-insert_at :
    (w i o : ℕ) (l : List ℕ) → Multiple w o → AlignedList w l → AlignedList w (insert_at i o l)
unfolding insert_at
AlignedList-insert_at w zero o l m a = (m, a)
AlignedList-insert_at w (suc i) o [] m a = (m, tt)
AlignedList-insert_at w (suc i) o (x ∷ l) m a = (a.0, AlignedList-insert_at w i o l m a.1)

width-suc : (w i : ℕ) → w * (2 * pow2 i) ≡ 2 * w * pow2 i
width-suc w i = omega arith

pub Aligned-get :
    (w : ℕ) (lists : FreeLists) (i : ℕ) (l : List ℕ)
    → get_elem? lists i ≡ some l
    → Aligned w lists
    → AlignedList (w * pow2 i) l
Aligned-get w [] i l h a = cc
Aligned-get w (k ∷ lists) zero l h a =
    let one : w * 1 ≡ w = omega arith in let same : l ≡ k = ground arith in rw (one, same) (a.0)
Aligned-get w (k ∷ lists) (suc i) l h a = rw (width-suc w i) (Aligned-get (2 * w) lists i l h a.1)

pub Aligned-set :
    (w : ℕ) (lists : FreeLists) (i : ℕ) (l : List ℕ)
    → AlignedList (w * pow2 i) l
    → Aligned w lists
    → Aligned w (set lists i l)
Aligned-set w [] i l h a = tt
Aligned-set w (k ∷ lists) zero l h a = let one : w * 1 ≡ w = omega arith in (rw one at h, a.1)
Aligned-set w (k ∷ lists) (suc i) l h a =
    (a.0, Aligned-set (2 * w) lists i l (rw (width-suc w i) at h) a.1)

pub Aligned-push :
    (w : ℕ) (lists lists' : FreeLists) (i o : ℕ)
    → push lists i o ≡ done lists'
    → Multiple (w * pow2 i) o
    → Aligned w lists
    → Aligned w lists'
unfolding push
Aligned-push w lists lists' i o h m a =
    let (l, e, q) = unwrap-eq_done (get_elem? lists i) (λ l. done (set lists i (l ++ o ∷ []))) h in
    let same : lists' ≡ set lists i (l ++ o ∷ []) = cc q in
    rw same (
      Aligned-set w lists i (l ++ o ∷ [])
        (AlignedList-append (w * pow2 i) o l (Aligned-get w lists i l e a) m) a)

-- A multiple of the length of an order is one of each lower order.
pub Multiple-lower : (b i n o : ℕ) → Multiple (b * pow2 (i + n)) o → Multiple (b * pow2 i) o
Multiple-lower b i n o (q, e) = (q * pow2 n, e ∙ rw (pow2_add i n) (omega arith))

-- So is what comes one length of the lower order later.
Multiple-next : (w o : ℕ) → Multiple w o → Multiple w (o + w)
Multiple-next w o (q, e) = (q + 1, rw e (omega arith))

pub Aligned-split :
    (b offset requested n : ℕ) (lists lists' : FreeLists)
    → split b offset requested n lists ≡ done lists'
    → Multiple (size_for_order (requested + n) b) offset
    → Aligned b lists
    → Aligned b lists'
unfolding split
Aligned-split b offset requested zero lists lists' h m a = subst (Aligned b) (cc) a
Aligned-split b offset requested (suc n) lists lists' h m a =
    let (l, e, q) = unwrap-eq_done (get_elem? lists (requested + n)) _ h in
    let (empty, q') = assert-eq_done (is_empty l) _ q in
    let (mid, pushed, q'') =
      >>=-eq_done (push lists (requested + n) (offset + size_for_order (requested + n) b)) _ q' in
    let up : requested + suc n ≡ (requested + n) + 1 = omega arith in
    let lower : Multiple (size_for_order (requested + n) b) offset =
      Multiple-lower b (requested + n) 1 offset (rw up at m) in
    Aligned-split b offset requested n mid lists' q'' lower (
      Aligned-push b lists mid (requested + n) (offset + size_for_order (requested + n) b) pushed
        (Multiple-next (size_for_order (requested + n) b) offset lower) a)
