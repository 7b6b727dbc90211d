-- ===== src/StorageDevice/Allocator/Cover.antt =====
-- How many regions, free or allocated, cover a byte of the source:
-- src/lib/storage/storage_device/src/buffer_allocator.rs.
use fuchsia_storage.Shared.{
  ℕ, zero, suc, ◌+◌, ◌*◌, ◌≡◌, refl, Bool, true, false, ◌&&◌, List, [], ◌∷◌, ◌++◌, Option, none,
  some, ◌==◌, ltb, leb, get_elem?, set, if◌then◌else◌, arith, Option-cases, Bool-cases, inl, inr,
  ◌⊎◌,
}
use fuchsia_storage.StorageDevice.Power.{pow2}
use fuchsia_storage.StorageDevice.Allocator.{
  Outcome, done, panic, FreeLists, push, unwrap, pop, split, assert, is_empty, AllocationMap,
  map_remove, map_insert, size_for_order, ◌>>=◌, Search, found, missing, binary_search, remove_at,
  insert_at,
}

-- Whether the region of `w` bytes at `o` covers the byte `x`.
abbrev pub hit : ℕ → ℕ → ℕ → ℕ
hit w o x = if leb o x && ltb x (o + w) then 1 else 0

abbrev pub cover_list : ℕ → ℕ → List ℕ → ℕ
cover_list w x [] = 0
cover_list w x (o ∷ l) = hit w o x + cover_list w x l

-- The regions of each list are twice as long as those of the list before.
abbrev pub cover_lists : ℕ → ℕ → FreeLists → ℕ
cover_lists w x [] = 0
cover_lists w x (l ∷ lists) = cover_list w x l + cover_lists (2 * w) x lists

abbrev pub cover_map : ℕ → AllocationMap → ℕ
cover_map x [] = 0
cover_map x ((o, w) ∷ m) = hit w o x + cover_map x m

pub hit_halves : (w o x : ℕ) → hit (2 * w) o x ≡ hit w o x + hit w (o + w) x
hit_halves w o x = ground arith

pub cover_list-append :
    (w x : ℕ) (l : List ℕ) (o : ℕ) → cover_list w x (l ++ o ∷ []) ≡ cover_list w x l + hit w o x
cover_list-append w x [] o = omega arith
cover_list-append w x (p ∷ l) o = omega (arith, cover_list-append w x l o)

pub cover_lists-set :
    (w x : ℕ) (lists : FreeLists) (i : ℕ) (l l' : List ℕ)
    → get_elem? lists i ≡ some l
    → cover_lists w x (set lists i l') + cover_list (w * pow2 i) x l
      ≡ cover_lists w x lists + cover_list (w * pow2 i) x l'
cover_lists-set w x [] i l l' h = cc
cover_lists-set w x (k ∷ lists) zero l l' h =
    let one : w * 1 ≡ w = omega arith in
    let same : k ≡ l = ground arith in rw (one, same) (omega arith)
cover_lists-set w x (k ∷ lists) (suc i) l l' h =
    let twice : w * (2 * pow2 i) ≡ 2 * w * pow2 i = omega arith in
    rw twice (omega (arith, cover_lists-set (2 * w) x lists i l l' h))

pop-eq_none : (l : List ℕ) → pop l ≡ none → l ≡ []
unfolding pop
pop-eq_none [] h = refl
pop-eq_none (o ∷ l) h = ground arith

pub cover-pop :
    (w x : ℕ) (l : List ℕ) (o : ℕ) (rest : List ℕ)
    → pop l ≡ some (o, rest)
    → cover_list w x l ≡ hit w o x + cover_list w x rest
unfolding pop
cover-pop w x [] o rest h = cc
cover-pop w x (p ∷ l) o rest h = elim (Option-cases (pop l)) [
  | inl e ↦
      let same : (p ≡ o) × (rest ≡ []) = ground arith in
      rw (pop-eq_none l e, same.0, same.1) (omega arith)
  | inr ((o', rest'), e) ↦
      let same : (o ≡ o') × (rest ≡ p ∷ rest') = ground arith in
      rw (same.0, same.1) (omega (arith, cover-pop w x l o' rest' e))
]

pub done-injective {ℓ} : {A : Type ℓ} (a b : A) → done a ≡ done b → a ≡ b
done-injective a b h = cc

-- What the successful steps of a chain have gone through.
pub unwrap-eq_done {ℓ κ} :
    {A : Type ℓ} {B : Type κ} (o : Option A) (f : A → Outcome B) {b : B}
    → (unwrap o >>= f) ≡ done b
    → (a : A) × (o ≡ some a) × (f a ≡ done b)
unwrap-eq_done none f h = cc
unwrap-eq_done (some a) f h = (a, refl, h)

pub >>=-eq_done {ℓ κ} :
    {A : Type ℓ} {B : Type κ} (m : Outcome A) (f : A → Outcome B) {b : B}
    → (m >>= f) ≡ done b
    → (a : A) × (m ≡ done a) × (f a ≡ done b)
>>=-eq_done (done a) f h = (a, refl, h)
>>=-eq_done panic f h = cc

pub assert-eq_done {ℓ} :
    {A : Type ℓ} (b : Bool) (m : Outcome A) {a : A}
    → assert b m ≡ done a
    → (b ≡ true) × (m ≡ done a)
unfolding assert
assert-eq_done true m h = (refl, h)
assert-eq_done false m h = cc

pub cover-push :
    (w x : ℕ) (lists lists' : FreeLists) (i o : ℕ)
    → push lists i o ≡ done lists'
    → cover_lists w x lists' ≡ cover_lists w x lists + hit (w * pow2 i) o x
unfolding push
cover-push w x lists lists' i o h =
    let (l, e, q) = unwrap-eq_done (get_elem? lists i) (λ l. done (set lists i (l ++ o ∷ []))) h in
    let same : lists' ≡ set lists i (l ++ o ∷ []) = cc q in
    rw same (
      omega (
        arith,
        cover_lists-set w x lists i l (l ++ o ∷ []) e,
        cover_list-append (w * pow2 i) x l o,
      ))

pub cover-split :
    (b x offset requested n : ℕ) (lists lists' : FreeLists)
    → split b offset requested n lists ≡ done lists'
    → cover_lists b x lists' + hit (size_for_order requested b) offset x
      ≡ cover_lists b x lists + hit (size_for_order (requested + n) b) offset x
unfolding split
cover-split b x offset requested zero lists lists' h =
    let same : lists' ≡ lists = cc in
    let still : requested + 0 ≡ requested = omega arith in rw (same, still)
cover-split b x offset requested (suc n) lists lists' h =
    let (l, e, q) = unwrap-eq_done (get_elem? lists (requested + n)) _ h in
    let (empty, q') = assert-eq_done (is_empty l) _ q in
    let (mid, pushed, q'') =
      >>=-eq_done (push lists (requested + n) (offset + size_for_order (requested + n) b)) _ q' in
    let up : requested + suc n ≡ suc (requested + n) = omega arith in
    let twice : b * (2 * pow2 (requested + n)) ≡ 2 * (b * pow2 (requested + n)) = omega arith in
    rw (up, twice)
      (omega (
        arith,
        cover-split b x offset requested n mid lists' q'',
        cover-push b x lists mid (requested + n) (offset + size_for_order (requested + n) b) pushed,
        hit_halves (b * pow2 (requested + n)) offset x,
      ))

pub cover-map_remove :
    (k x : ℕ) (m : AllocationMap) (v : ℕ) (m' : AllocationMap)
    → map_remove k m ≡ some (v, m')
    → cover_map x m ≡ hit v k x + cover_map x m'
unfolding map_remove
cover-map_remove k x [] v m' h = cc
cover-map_remove k x ((j, u) ∷ m) v m' h = elim (Bool-cases (j == k)) [
  | inl here ↦ let same : (j ≡ k) × (u ≡ v) × (m ≡ m') = ground arith in rw (same.0, same.1, same.2)
  | inr further ↦ elim (Option-cases (map_remove k m)) [
    | inl e ↦ absurd (ground arith)
    | inr ((w, rest), e) ↦
        let same : (w ≡ v) × (m' ≡ (j, u) ∷ rest) = ground arith in
        rw (same.1, ← same.0) (omega (arith, cover-map_remove k x m w rest e))
  ]
]

pub cover-map_insert :
    (k v x : ℕ) (m : AllocationMap)
    → map_remove k m ≡ none
    → cover_map x (map_insert k v m) ≡ hit v k x + cover_map x m
unfolding map_insert
cover-map_insert k v x m h = rw (h, map_insert)

pub Search-cases : (s : Search) → ((i : ℕ) × (s ≡ found i)) ⊎ ((i : ℕ) × (s ≡ missing i))
Search-cases (found i) = inl (i, refl)
Search-cases (missing i) = inr (i, refl)

pub cover-binary_search :
    (v w x i : ℕ) (l : List ℕ)
    → binary_search v l ≡ found i
    → cover_list w x l ≡ hit w v x + cover_list w x (remove_at i l)
unfolding binary_search remove_at
cover-binary_search v w x i [] h = cc
cover-binary_search v w x i (y ∷ l) h = elim (Bool-cases (y == v)) [
  | inl here ↦ let same : (y ≡ v) × (i ≡ 0) = ground arith in rw (same.0, same.1)
  | inr past ↦ elim (Bool-cases (ltb v y)) [
    | inl before ↦ absurd (ground arith)
    | inr after ↦ elim (Search-cases (binary_search v l)) [
      | inr (j, e) ↦ absurd (ground arith)
      | inl (j, e) ↦
          let same : i ≡ suc j = ground arith in
          rw same (omega (arith, cover-binary_search v w x j l e))
    ]
  ]
]

pub cover-insert_at :
    (v w x i : ℕ) (l : List ℕ) → cover_list w x (insert_at i v l) ≡ hit w v x + cover_list w x l
unfolding insert_at
cover-insert_at v w x zero l = refl
cover-insert_at v w x (suc i) [] = refl
cover-insert_at v w x (suc i) (y ∷ l) = omega (arith, cover-insert_at v w x i l)
