-- ===== src/Vfs/Directory/Entries/Order.antt =====
-- The order of names is total and strict.
use Prim.Native.Nat.{Ordering}
use fuchsia_storage.Shared.{true, false, [], ◌∷◌, ◌≡◌, refl, arith}
use fuchsia_storage.Vfs.Directory.Entries.{Name, compare_names, name_eq, name_lt}

compare_names_refl : (a : Name) → compare_names a a ≡ Ordering.eq
unfolding compare_names
compare_names_refl [] = refl
compare_names_refl (x ∷ a) = ground (arith, compare_names_refl a)

compare_names-eq : (a b : Name) → compare_names a b ≡ Ordering.eq → a ≡ b
unfolding compare_names
compare_names-eq [] [] h = refl
compare_names-eq [] (y ∷ b) h = cc
compare_names-eq (x ∷ a) [] h = cc
compare_names-eq (x ∷ a) (y ∷ b) h = ground (arith, compare_names-eq a b)

pub name_eq_refl : (a : Name) → name_eq a a ≡ true
unfolding name_eq
name_eq_refl a = rw (compare_names_refl a, name_eq)

pub name_eq→eq : (a b : Name) → name_eq a b ≡ true → a ≡ b
unfolding name_eq
name_eq→eq a b h = compare_names-eq a b (ground arith)

pub eq→name_eq : (a b : Name) → a ≡ b → name_eq a b ≡ true
eq→name_eq a b h = rw h (name_eq_refl b)

compare_names_trans :
    (a b c : Name)
    → compare_names a b ≡ Ordering.lt
    → compare_names b c ≡ Ordering.lt
    → compare_names a c ≡ Ordering.lt
unfolding compare_names
compare_names_trans [] [] c h k = cc
compare_names_trans [] (y ∷ b) [] h k = cc
compare_names_trans [] (y ∷ b) (z ∷ c) h k = refl
compare_names_trans (x ∷ a) [] c h k = cc
compare_names_trans (x ∷ a) (y ∷ b) [] h k = cc
compare_names_trans (x ∷ a) (y ∷ b) (z ∷ c) h k = ground (arith, compare_names_trans a b c)

compare_names-swap :
    (a b : Name) → compare_names a b ≡ Ordering.gt → compare_names b a ≡ Ordering.lt
unfolding compare_names
compare_names-swap [] [] h = cc
compare_names-swap [] (y ∷ b) h = cc
compare_names-swap (x ∷ a) [] h = refl
compare_names-swap (x ∷ a) (y ∷ b) h = ground (arith, compare_names-swap a b)

pub name_lt_trans : (a b c : Name) → name_lt a b ≡ true → name_lt b c ≡ true → name_lt a c ≡ true
unfolding name_lt
name_lt_trans a b c h k = ground (arith, compare_names_trans a b c)

pub name_lt_irrefl : (a : Name) → name_lt a a ≡ false
unfolding name_lt
name_lt_irrefl a = rw (compare_names_refl a, name_lt)

pub name_lt-total : (a b : Name) → name_eq a b ≡ false → name_lt b a ≡ false → name_lt a b ≡ true
unfolding name_lt name_eq
name_lt-total a b h k = ground (arith, compare_names-swap a b)
