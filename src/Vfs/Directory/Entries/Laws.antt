-- ===== src/Vfs/Directory/Entries/Laws.antt =====
-- What the map operations do to a lookup and to the order.
use fuchsia_storage.Shared.{
  true, [], ◌∷◌, ◌++◌, ◌≡◌, refl, none, some, arith, if◌then◌else◌, Bool-cases, inl, inr,
}
use fuchsia_storage.Vfs.Directory.Entries.{
  Name, Entry, Entries, name_eq, name_lt, get, insert, remove, range_from,
}
use fuchsia_storage.Vfs.Directory.Entries.Order.{
  name_eq→eq, eq→name_eq, name_lt_trans, name_lt_irrefl, name_lt-total,
}

pub get-remove :
    (k j : Name) (m : Entries) → get j (remove k m) ≡ (if name_eq k j then none else get j m)
unfolding get remove
get-remove k j [] = ground arith
get-remove k j ((i, e) ∷ m) = ground (
  arith,
  get-remove k j m,
  name_eq→eq i k,
  name_eq→eq i j,
  name_eq→eq k j,
  eq→name_eq i k,
  eq→name_eq i j,
  eq→name_eq k j,
)

pub get-insert :
    (k j : Name) (e : Entry) (m : Entries)
    → get j (insert k e m) ≡ (if name_eq k j then some e else get j m)
unfolding get insert
get-insert k j e [] = refl
get-insert k j e ((i, d) ∷ m) = ground (
  arith,
  get-insert k j e m,
  name_eq→eq i k,
  name_eq→eq i j,
  name_eq→eq k j,
  eq→name_eq i k,
  eq→name_eq i j,
  eq→name_eq k j,
)

-- Every name lies after `k`.
abbrev pub After : Name → Entries → Type 0
After k [] = Unit {0}
After k ((j, e) ∷ m) = (name_lt k j ≡ true) × After k m

abbrev pub IsSorted : Entries → Type 0
IsSorted [] = Unit {0}
IsSorted ((j, e) ∷ m) = After j m × IsSorted m

After-trans : (k j : Name) (m : Entries) → name_lt k j ≡ true → After j m → After k m
After-trans k j [] h a = tt
After-trans k j ((i, e) ∷ m) h a = (name_lt_trans k j i h a.0, After-trans k j m h a.1)

After-insert :
    (i k : Name) (e : Entry) (m : Entries) → name_lt i k ≡ true → After i m → After i (insert k e m)
unfolding insert
After-insert i k e [] h a = (h, tt)
After-insert i k e ((j, d) ∷ m) h a = ground (arith, After-insert i k e m h a.1)

After-remove : (i k : Name) (m : Entries) → After i m → After i (remove k m)
unfolding remove
After-remove i k [] a = tt
After-remove i k ((j, d) ∷ m) a = ground (arith, After-remove i k m a.1)

pub remove-IsSorted : (k : Name) (m : Entries) → IsSorted m → IsSorted (remove k m)
unfolding remove
remove-IsSorted k [] s = tt
remove-IsSorted k ((j, d) ∷ m) s = ground (arith, remove-IsSorted k m s.1, After-remove j k m s.0)

pub insert-IsSorted : (k : Name) (e : Entry) (m : Entries) → IsSorted m → IsSorted (insert k e m)
unfolding insert
insert-IsSorted k e [] s = (tt, tt)
insert-IsSorted k e ((j, d) ∷ m) s = elim (Bool-cases (name_eq j k)) [
  | inl same ↦ rw same (rw (← name_eq→eq j k same) s)
  | inr other ↦ elim (Bool-cases (name_lt k j)) [
    | inl before ↦ rw (other, before) ((before, After-trans k j m before s.0), s)
    | inr after ↦
        rw (other, after)
          (After-insert j k e m (name_lt-total j k other after) s.0, insert-IsSorted k e m s.1)
  ]
]

After-middle :
    (j k : Name) (e : Entry) (taken rest : Entries)
    → After j (taken ++ (k, e) ∷ rest)
    → name_lt j k ≡ true
After-middle j k e [] rest a = a.0
After-middle j k e ((i, d) ∷ taken) rest a = After-middle j k e taken rest a.1

-- Past names that lie before `k`, `range_from k` is what follows.
pub range_from-append :
    (k : Name) (e : Entry) (taken rest : Entries)
    → IsSorted (taken ++ (k, e) ∷ rest)
    → range_from k (taken ++ (k, e) ∷ rest) ≡ (k, e) ∷ rest
unfolding range_from
range_from-append k e [] rest s = rw (name_lt_irrefl k)
range_from-append k e ((j, d) ∷ taken) rest s =
    rw (After-middle j k e taken rest s.0) (range_from-append k e taken rest s.1)
