-- ===== src/Vfs/PathString/Walk.antt =====
-- The walk over a path: src/lib/storage/vfs/rust/src/path.rs.
use native.Mathlib.Nat.{zero-add, suc-add}
use fuchsia_storage.Shared.{
  ℕ, zero, suc, ◌+◌, ◌≤◌, ◌≡◌, refl, sym, ap, ◌∙◌, List, [], ◌∷◌, none, some, ◌==◌, leb, length,
  take, drop, arith, Option-cases, Bool-cases, inl, inr,
}
use fuchsia_storage.Vfs.Directory.Entries.{Name}
use fuchsia_storage.Vfs.PathString.{
  PathString, find_slash, split_slash, is_empty_string, rest_of, next, peek,
}

-- What `next` yields until it yields nothing.
pub data Yields : PathString → List Name → Type 0 where
  yields_none : {p p' : PathString} → next p ≡ (p', none) → Yields p []
  yields_one :
      {p p' : PathString} {c : Name} {cs : List Name}
      → next p ≡ (p', some c)
      → Yields p' cs
      → Yields p (c ∷ cs)

-- The parts without a last one that is empty.
unfoldable pub without_empty : List Name → List Name
without_empty [] = []
without_empty ([] ∷ []) = []
without_empty ((d ∷ c) ∷ []) = (d ∷ c) ∷ []
without_empty (c ∷ e ∷ cs) = c ∷ without_empty (e ∷ cs)

-- Where there is no slash the string is its only part.
split_whole : (s : Name) → find_slash s ≡ none → split_slash s ≡ s ∷ []
unfolding find_slash split_slash
split_whole [] h = refl
split_whole (c ∷ s) h = elim (Option-cases (find_slash s)) [
  | inl e ↦ ground (arith, split_whole s e)
  | inr (i, e) ↦ absurd (ground arith)
]

-- The first slash ends the first part.
split_first :
    (s : Name) (i : ℕ)
    → find_slash s ≡ some i
    → split_slash s ≡ take i s ∷ split_slash (drop (suc i) s)
unfolding find_slash split_slash
split_first [] i h = cc
split_first (c ∷ s) i h = elim (Bool-cases (c == b'/')) [
  | inl slash ↦ let same : i ≡ 0 = ground arith in rw (same, slash)
  | inr other ↦ elim (Option-cases (find_slash s)) [
    | inl e ↦ absurd (ground arith)
    | inr (j, e) ↦ let same : i ≡ suc j = ground arith in rw (same, other) (rw (split_first s j e))
  ]
]

drop_empty : (n : ℕ) → ◌≡◌ {A = Name} (drop n []) []
drop_empty zero = refl
drop_empty (suc n) = refl

drop_add : (m n : ℕ) (s : Name) → drop (m + n) s ≡ drop n (drop m s)
drop_add zero n s = rw zero-add
drop_add (suc m) n [] = rw suc-add (sym (drop_empty n))
drop_add (suc m) n (c ∷ s) = rw suc-add (drop_add m n s)

drop_past : (m i : ℕ) (s : Name) → drop (m + i + 1) s ≡ drop (suc i) (drop m s)
drop_past m i s = ap (λ n. drop n s) (omega arith) ∙ drop_add m (suc i) s

drop_all : (s : Name) → drop (length s) s ≡ []
drop_all [] = refl
drop_all (c ∷ s) = drop_all s

-- No part is left exactly at the end of the string.
is_empty-drop : (n : ℕ) (s : Name) → leb (length s) n ≡ is_empty_string (drop n s)
is_empty-drop zero [] = refl
is_empty-drop zero (c ∷ s) = ground arith
is_empty-drop (suc n) [] = ground arith
is_empty-drop (suc n) (c ∷ s) = ground (arith, is_empty-drop n s)

-- One step of the walk.
next-slash :
    (p : PathString) (i : ℕ)
    → find_slash (rest_of p) ≡ some i
    → next p ≡ (record p { next_index = p.next_index + i + 1 }, some (take i (rest_of p)))
unfolding next
next-slash p i h = rw h

next-end : (p : PathString) → find_slash (rest_of p) ≡ none → rest_of p ≡ [] → next p ≡ (p, none)
unfolding next
next-end p h e = ground (arith, is_empty-drop p.next_index p.inner)

next-last :
    (p : PathString) (c : ℕ) (s : Name)
    → find_slash (rest_of p) ≡ none
    → rest_of p ≡ c ∷ s
    → next p ≡ (record p { next_index = length p.inner }, some (c ∷ s))
unfolding next
next-last p c s h e = ground (arith, is_empty-drop p.next_index p.inner)

split-nonempty : (s : Name) → (c : Name) × (cs : List Name) × (split_slash s ≡ c ∷ cs)
split-nonempty s = elim (Option-cases (find_slash s)) [
  | inl e ↦ (s, [], split_whole s e)
  | inr (i, e) ↦ (take i s, split_slash (drop (suc i) s), split_first s i e)
]

walk_last :
    (p : PathString) (c : Name)
    → find_slash (rest_of p) ≡ none
    → rest_of p ≡ c
    → Yields p (without_empty (c ∷ []))
unfolding without_empty find_slash
walk_last p [] e q = yields_none (next-end p e q)
walk_last p (d ∷ c) e q =
    let p' : PathString = record p { next_index = length p.inner } in
    let done : rest_of p' ≡ [] = drop_all p.inner in
    yields_one (next-last p d c e q) (yields_none (next-end p' (ap find_slash done) done))

pub without_empty-cons :
    (c e : Name) (cs : List Name) → without_empty (c ∷ e ∷ cs) ≡ c ∷ without_empty (e ∷ cs)
unfolding without_empty
without_empty-cons [] e cs = refl
without_empty-cons (d ∷ c) e cs = refl

-- The walk yields the parts of the rest of the string.
pub walk :
    (cs : List Name) (p : PathString) → split_slash (rest_of p) ≡ cs → Yields p (without_empty cs)
walk [] p h = let (c, cs, q) = split-nonempty (rest_of p) in cc
walk (c ∷ []) p h = elim (Option-cases (find_slash (rest_of p))) [
  | inl e ↦ let whole : rest_of p ≡ c = cc (split_whole (rest_of p) e) in walk_last p c e whole
  | inr (i, e) ↦
      let first = split_first (rest_of p) i e in
      let (x, xs, q) = split-nonempty (drop (suc i) (rest_of p)) in absurd (cc)
]
walk (c ∷ e ∷ cs) p h = elim (Option-cases (find_slash (rest_of p))) [
  | inl none_left ↦ absurd (cc (split_whole (rest_of p) none_left))
  | inr (i, at) ↦
      let first = split_first (rest_of p) i at in
      let p' : PathString = record p { next_index = p.next_index + i + 1 } in
      let here : take i (rest_of p) ≡ c = cc in
      let later : split_slash (rest_of p') ≡ e ∷ cs =
        ap split_slash (drop_past p.next_index i p.inner) ∙ cc in
      let step : next p ≡ (p', some c) = rw (← here) (next-slash p i at) in
      rw (without_empty-cons c e cs) (yields_one step (walk (e ∷ cs) p' later))
]

-- `peek` shows what `next` then yields, and into the rest of the string no step goes back.
pub next-peek : (p : PathString) → ((next p).1 ≡ peek p) × (p.next_index ≤ (next p).0.next_index)
unfolding next peek
next-peek p = elim (Option-cases (find_slash (rest_of p))) [
  | inl e ↦ ground arith
  | inr (i, e) ↦ ground arith
]
