-- ===== src/Vfs/PathString/Valid.antt =====
-- What validation promises of a path: src/lib/storage/vfs/rust/src/path.rs.
use fuchsia_storage.Shared.{
  ℕ, ◌≤◌, ◌≡◌, refl, sym, ap, ◌∙◌, subst, true, false, ◌||◌, List, [], ◌∷◌, ◌++◌, ◌==◌, length,
  drop, if◌then◌else◌, arith, Bool-cases, inl, inr,
}
use fuchsia_storage.Vfs.Status.{Result, ok, reject-eq_ok}
use fuchsia_storage.Vfs.Directory.Entries.{Name, name_eq}
use fuchsia_storage.Vfs.Directory.Simple.{contains_slash}
use fuchsia_storage.Vfs.PathString.{
  PathLimits, PathString, dot_path, cons_first, split_slash, without_last, ends_with_slash,
  is_empty_string, check_components, first_index, checked_parts, validate_and_split,
}
use fuchsia_storage.Vfs.PathString.Walk.{Yields, without_empty, without_empty-cons, walk}

-- What the loop checks of a part.
pub record IsChecked (limits : PathLimits) (c : Name) : Type 0 where
  pub filled : is_empty_string c ≡ false
  pub no_parent : name_eq c (b'.' ∷ b'.' ∷ []) ≡ false
  pub no_self : name_eq c (b'.' ∷ []) ≡ false
  pub short : length c ≤ limits.max_filename

-- A component that a directory may look up: such a part, without a slash.
pub record IsComponent (limits : PathLimits) (c : Name) : Type 0 where
  pub checked : IsChecked limits c
  pub no_slash : contains_slash c ≡ false

abbrev AllChecked : PathLimits → List Name → Type 0
AllChecked limits [] = Unit {0}
AllChecked limits (c ∷ cs) = IsChecked limits c × AllChecked limits cs

abbrev NoSlashes : List Name → Type 0
NoSlashes [] = Unit {0}
NoSlashes (c ∷ cs) = (contains_slash c ≡ false) × NoSlashes cs

abbrev pub AllComponents : PathLimits → List Name → Type 0
AllComponents limits [] = Unit {0}
AllComponents limits (c ∷ cs) = IsComponent limits c × AllComponents limits cs

AllComponents-both :
    (limits : PathLimits) (cs : List Name)
    → AllChecked limits cs
    → NoSlashes cs
    → AllComponents limits cs
AllComponents-both limits [] a n = tt
AllComponents-both limits (c ∷ cs) a n =
    (record { checked = a.0; no_slash = n.0 }, AllComponents-both limits cs a.1 n.1)

check_components-eq_ok {ℓ} :
    {A : Type ℓ} (limits : PathLimits) (cs : List Name) (m : Result A) (a : A)
    → check_components limits cs m ≡ ok a
    → AllChecked limits cs × (m ≡ ok a)
unfolding check_components
check_components-eq_ok limits [] m a h = (tt, h)
check_components-eq_ok limits (c ∷ cs) m a h =
    let (fine, q) = reject-eq_ok _ _ _ h in
    let (short, q') = reject-eq_ok _ _ _ q in
    let (rest, last) = check_components-eq_ok limits cs m a q' in
    (
      (
        record {
          filled = ground (arith, fine);
          no_parent = ground (arith, fine);
          no_self = ground (arith, fine);
          short = ground (arith, short);
        },
        rest,
      ),
      last,
    )

cons_first-NoSlashes :
    (c : ℕ) (cs : List Name) → (c == b'/') ≡ false → NoSlashes cs → NoSlashes (cons_first c cs)
unfolding contains_slash
cons_first-NoSlashes c [] h n = (rw h, tt)
cons_first-NoSlashes c (x ∷ xs) h n = (rw h (n.0), n.1)

split-NoSlashes : (s : Name) → NoSlashes (split_slash s)
unfolding split_slash contains_slash
split-NoSlashes [] = (refl, tt)
split-NoSlashes (c ∷ s) = elim (Bool-cases (c == b'/')) [
  | inl slash ↦ rw slash (refl, split-NoSlashes s)
  | inr other ↦ rw other (cons_first-NoSlashes c (split_slash s) other (split-NoSlashes s))
]

-- A string that ends with a slash has an empty last part, and one before it.
split-ends :
    (s : Name)
    → ends_with_slash s ≡ true
    → (c : Name) × (cs : List Name) × (split_slash s ≡ (c ∷ cs) ++ [] ∷ [])
unfolding ends_with_slash split_slash
split-ends [] h = cc
split-ends (c ∷ []) h = ([], [], rw h)
split-ends (c ∷ d ∷ s) h =
    let (x, xs, q) = split-ends (d ∷ s) h in
    elim (Bool-cases (c == b'/')) [
      | inl slash ↦ ([], x ∷ xs, rw slash (ap (λ l. [] ∷ l) q))
      | inr other ↦ (c ∷ x, xs, rw other (ap (cons_first c) q))
    ]

ends_with_slash-drop :
    (path : Name)
    → ends_with_slash path ≡ true
    → ends_with_slash (drop (first_index path) path) ≡ true
unfolding ends_with_slash
ends_with_slash-drop [] h = h
ends_with_slash-drop (c ∷ []) h = h
ends_with_slash-drop (c ∷ d ∷ s) h = elim (Bool-cases (c == b'/')) [
  | inl slash ↦ ground arith
  | inr other ↦ ground arith
]

without_last-append : (cs : List Name) (x : Name) → without_last (cs ++ x ∷ []) ≡ cs
unfolding without_last
without_last-append [] x = refl
without_last-append (c ∷ []) x = refl
without_last-append (c ∷ d ∷ cs) x = ap (λ l. c ∷ l) (without_last-append (d ∷ cs) x)

without_empty-append : (c : Name) (cs : List Name) → without_empty ((c ∷ cs) ++ [] ∷ []) ≡ c ∷ cs
unfolding without_empty
without_empty-append c [] = without_empty-cons c [] []
without_empty-append c (d ∷ cs) =
    without_empty-cons c d (cs ++ [] ∷ []) ∙ ap (λ l. c ∷ l) (without_empty-append d cs)

without_empty-AllChecked :
    (limits : PathLimits) (cs : List Name) → AllChecked limits cs → without_empty cs ≡ cs
unfolding without_empty
without_empty-AllChecked limits [] a = refl
without_empty-AllChecked limits ([] ∷ []) a = absurd (cc (a.0.filled))
without_empty-AllChecked limits ((d ∷ c) ∷ []) a = refl
without_empty-AllChecked limits (c ∷ e ∷ cs) a =
    without_empty-cons c e cs ∙ ap (λ l. c ∷ l) (without_empty-AllChecked limits (e ∷ cs) a.1)

without_last-NoSlashes : (cs : List Name) → NoSlashes cs → NoSlashes (without_last cs)
unfolding without_last
without_last-NoSlashes [] n = tt
without_last-NoSlashes (c ∷ []) n = tt
without_last-NoSlashes (c ∷ d ∷ cs) n = (n.0, without_last-NoSlashes (d ∷ cs) n.1)

-- The parts that are checked are those that the walk yields.
parts_walked :
    (limits : PathLimits) (path : Name)
    → AllChecked limits (checked_parts path)
    → without_empty (split_slash (drop (first_index path) path)) ≡ checked_parts path
parts_walked limits path a = elim (Bool-cases (ends_with_slash path)) [
  | inl ends ↦
      let (c, cs, q) = split-ends (drop (first_index path) path) (ends_with_slash-drop path ends) in
      rw (ends, q) (without_empty-append c cs ∙ sym (without_last-append (c ∷ cs) []))
  | inr other ↦ rw other (without_empty-AllChecked limits _ (rw other at a))
]

parts-NoSlashes : (path : Name) → NoSlashes (checked_parts path)
parts-NoSlashes path = elim (Bool-cases (ends_with_slash path)) [
  | inl ends ↦ rw ends (without_last-NoSlashes _ (split-NoSlashes (drop (first_index path) path)))
  | inr other ↦ rw other (split-NoSlashes (drop (first_index path) path))
]

dot-Yields : Yields dot_path []
unfolding split_slash without_empty
dot-Yields = walk ([] ∷ []) dot_path refl

-- A path that is accepted yields, by `next` until it yields nothing, exactly the parts that were
-- checked, none for "." and "/"; each of them is a name that is not empty, not "." and not "..",
-- holds no slash and is no longer than the greatest file name.
pub validate_and_split-Yields :
    (limits : PathLimits) (path : Name) (p : PathString)
    → validate_and_split limits path ≡ ok p
    → (cs : List Name) × Yields p cs
      × AllComponents limits cs
      × (cs ≡ (
          if name_eq path (b'.' ∷ []) || name_eq path (b'/' ∷ []) then [] else checked_parts path))
unfolding validate_and_split
validate_and_split-Yields limits path p h =
    let (fits, q) = reject-eq_ok _ _ _ h in
    elim (Bool-cases (name_eq path (b'.' ∷ []) || name_eq path (b'/' ∷ []))) [
      | inl dot ↦ ([], subst (λ t. Yields t []) (cc (rw dot at q)) dot-Yields, tt, rw dot)
      | inr other ↦
          let (checked, same) =
            check_components-eq_ok limits (checked_parts path) _ p (rw other at q) in
          let walked =
            walk _
              (record {
                is_dir = ends_with_slash path;
                inner = path;
                next_index = first_index path;
              })
              refl in
          (
            checked_parts path,
            subst (λ t. Yields t (checked_parts path)) (cc same)
                (rw (parts_walked limits path checked) at walked),
            AllComponents-both limits (checked_parts path) checked (parts-NoSlashes path),
            rw other,
          )
    ]
