-- ===== src/BlockClient/Memory.antt =====
-- Bytes by address: the contents of a VMO and of a block device, as
-- src/lib/storage/block_client/rust/src copies them.
use fuchsia_storage.Shared.{
  ℕ, zero, suc, ◌+◌, ◌-◌, ◌≤◌, ◌<◌, Bool, ◌&&◌, List, [], ◌∷◌, ◌++◌, length, get_or, take, drop,
  leb, ltb, if◌then◌else◌, ◌≡◌, refl, sym, arith, ◌∙◌, ap, length-take,
}

-- A byte that was never written reads as some number too.
abbrev pub Memory : Type 0
Memory = ℕ → ℕ

abbrev pub within : ℕ → ℕ → ℕ → Bool
within start size a = leb start a && ltb a (start + size)

-- `size` bytes from `start` on are those of `source`, which counts from 0.
abbrev pub fill : Memory → ℕ → ℕ → Memory → Memory
fill memory start size source = λ a. if within start size a then source (a - start) else memory a

-- The bytes of a buffer, by position.
abbrev pub contents : List ℕ → Memory
contents buf = λ i. get_or buf i 0

unfoldable pub bytes_at : Memory → ℕ → ℕ → List ℕ
bytes_at memory start zero = []
bytes_at memory start (suc size) = memory start ∷ bytes_at memory (suc start) size

pub length-bytes_at : (m : Memory) (start size : ℕ) → length (bytes_at m start size) ≡ size
unfolding bytes_at
length-bytes_at m start zero = refl
length-bytes_at m start (suc size) = ap suc (length-bytes_at m (suc start) size)

-- A read is one read of the first part and one of the rest.
pub bytes_at-add :
    (m : Memory) (start n k : ℕ)
    → bytes_at m start (n + k) ≡ bytes_at m start n ++ bytes_at m (start + n) k
unfolding bytes_at
bytes_at-add m start zero k =
    let e : start + 0 ≡ start = omega arith in let z : 0 + k ≡ k = omega arith in rw (e, z) refl
bytes_at-add m start (suc n) k =
    let e : suc n + k ≡ suc (n + k) = omega arith in
    let f : start + suc n ≡ suc start + n = omega arith in
    rw (e, f) (ap (λ (l : List ℕ). m start ∷ l) (bytes_at-add m (suc start) n k))

pub bytes_at_cong :
    (m o : Memory) (start from size : ℕ)
    → ((i : ℕ) → i < size → m (start + i) ≡ o (from + i))
    → bytes_at m start size ≡ bytes_at o from size
unfolding bytes_at
bytes_at_cong m o start from zero h = refl
bytes_at_cong m o start from (suc size) h =
    let e : start + 0 ≡ start = omega arith in
    let f : from + 0 ≡ from = omega arith in
    let first : m start ≡ o from = subst2 e f (h 0 (omega arith)) in
    let rest = bytes_at_cong m o (suc start) (suc from) size (λ i p. shifted i p) in
    rw (first, rest) refl
  where
    subst2 : start + 0 ≡ start → from + 0 ≡ from → m (start + 0) ≡ o (from + 0) → m start ≡ o from
    subst2 e f q = sym (ap m e) ∙ q ∙ ap o f

    shifted : (i : ℕ) → i < size → m (suc start + i) ≡ o (suc from + i)
    shifted i p =
        let e : suc start + i ≡ start + suc i = omega arith in
        let f : suc from + i ≡ from + suc i = omega arith in
        ap m e ∙ h (suc i) (omega arith) ∙ sym (ap o f)

get_or-take : (n i : ℕ) (xs : List ℕ) → i < n → get_or (take n xs) i 0 ≡ get_or xs i 0
get_or-take zero i xs h = absurd (omega arith)
get_or-take (suc n) i [] h = refl
get_or-take (suc n) zero (x ∷ xs) h = refl
get_or-take (suc n) (suc i) (x ∷ xs) h = get_or-take n i xs (omega arith)

get_or-drop : (n i : ℕ) (xs : List ℕ) → get_or (drop n xs) i 0 ≡ get_or xs (n + i) 0
get_or-drop zero i xs = let e : 0 + i ≡ i = omega arith in rw e refl
get_or-drop (suc n) i [] = refl
get_or-drop (suc n) i (x ∷ xs) =
    let e : suc n + i ≡ suc (n + i) = omega arith in rw e (get_or-drop n i xs)

-- Only the bytes that are written matter.
pub fill-take :
    (m : Memory) (start n : ℕ) (buf : List ℕ) (a : ℕ)
    → n ≤ length buf
    → fill m start (length (take n buf)) (contents (take n buf)) a ≡ fill m start n (contents buf) a
fill-take m start n buf a h =
    let e : length (take n buf) ≡ n = omega (arith, length-take {0} n buf) in
    rw e (ground (arith, get_or-take n (a - start) buf))

-- A write of `n` bytes of a buffer, and then of `k` of what is left of it.
pub fill-add :
    (m o : Memory) (start n k : ℕ) (buf : List ℕ) (a : ℕ)
    → o a ≡ fill m start n (contents buf) a
    → fill o (start + n) k (contents (drop n buf)) a ≡ fill m start (n + k) (contents buf) a
fill-add m o start n k buf a h = ground (arith, get_or-drop n (a - (start + n)) buf, position)
  where
    position : start + n ≤ a → get_or buf (n + (a - (start + n))) 0 ≡ get_or buf (a - start) 0
    position p = let e : n + (a - (start + n)) ≡ a - start = omega arith in rw e refl

bytes_at-contents : (xs : List ℕ) → bytes_at (contents xs) 0 (length xs) ≡ xs
unfolding bytes_at
bytes_at-contents [] = refl
bytes_at-contents (x ∷ xs) =
    ap (λ (l : List ℕ). x ∷ l)
      (bytes_at_cong (contents (x ∷ xs)) (contents xs) 1 0 (length xs) (λ i p.
          let e : 1 + i ≡ suc i = omega arith in let z : 0 + i ≡ i = omega arith in rw (e, z) refl)
        ∙ bytes_at-contents xs)

-- A buffer that was written is read back.
pub bytes_at-fill :
    (m : Memory) (start : ℕ) (buf : List ℕ)
    → bytes_at (fill m start (length buf) (contents buf)) start (length buf) ≡ buf
bytes_at-fill m start buf =
    bytes_at_cong (fill m start (length buf) (contents buf)) (contents buf) start 0 (length buf)
      (λ i p.
        let back : start + i - start ≡ 0 + i = omega arith in
        ground (arith, ap (λ (x : ℕ). get_or buf x 0) back))
    ∙ bytes_at-contents buf
