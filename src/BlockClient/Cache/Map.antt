-- ===== src/BlockClient/Cache/Map.antt =====
-- The map of the block cache as a list in order of use:
-- src/lib/storage/block_client/rust/src/cache.rs.
use fuchsia_storage.Shared.{
  ℕ, suc, ◌≡◌, refl, false, List, [], ◌∷◌, ◌++◌, Option, none, some, length, lookup, remove,
  lookup-remove, if◌then◌else◌, ◌==◌, ==_self, ==_iff, arith, length-append, Bool-cases,
  Option-cases, inl, inr, ap,
}
use fuchsia_storage.BlockClient.Cache.{CacheEntry, put_back}
use fuchsia_storage.BlockClient.Cache.Stream.{mark_clean}

abbrev pub Entries : Type 0
Entries = List (ℕ × CacheEntry)

abbrev pub HasDistinctKeys : Entries → Type 0
HasDistinctKeys [] = Unit {0}
HasDistinctKeys ((k, e) ∷ m) = (lookup k m ≡ none) × HasDistinctKeys m

lookup-append_one :
    (j k : ℕ) (e : CacheEntry) (m : Entries)
    → lookup j m ≡ none
    → lookup j (m ++ (k, e) ∷ []) ≡ (if k == j then some e else none)
unfolding lookup
lookup-append_one j k e [] h = refl
lookup-append_one j k e ((i, f) ∷ m) h = ground (arith, lookup-append_one j k e m)

lookup-append_some :
    (j k : ℕ) (e : CacheEntry) (m : Entries) (f : CacheEntry)
    → lookup j m ≡ some f
    → lookup j (m ++ (k, e) ∷ []) ≡ some f
unfolding lookup
lookup-append_some j k e [] f h = cc
lookup-append_some j k e ((i, g) ∷ m) f h = ground (arith, lookup-append_some j k e m f)

module _ (k : ℕ) (e : CacheEntry) where
  pub lookup-put_back :
      (j : ℕ) (m : Entries) → lookup j (put_back k e m) ≡ (if k == j then some e else lookup j m)
  unfolding put_back
  lookup-put_back j m = elim (Option-cases (lookup j (remove k m))) [
    | inl q ↦ ground (arith, lookup-append_one j k e (remove k m) q, lookup-remove k j m)
    | inr (f, q) ↦ ground (arith, lookup-append_some j k e (remove k m) f q, lookup-remove k j m)
  ]

  remove-HasDistinctKeys : (m : Entries) → HasDistinctKeys m → HasDistinctKeys (remove k m)
  unfolding remove
  remove-HasDistinctKeys [] h = tt
  remove-HasDistinctKeys ((j, f) ∷ m) h =
      ground (arith, remove-HasDistinctKeys m h.1, lookup-remove k j m)

  append-HasDistinctKeys :
      (m : Entries) → lookup k m ≡ none → HasDistinctKeys m → HasDistinctKeys (m ++ (k, e) ∷ [])
  unfolding lookup
  append-HasDistinctKeys [] h d = ground arith
  append-HasDistinctKeys ((j, f) ∷ m) h d =
      ground
        (arith, append-HasDistinctKeys m (ground arith) d.1, lookup-append_one j k e m, ==_iff k j)

  pub put_back-HasDistinctKeys :
      (m : Entries) → HasDistinctKeys m → HasDistinctKeys (put_back k e m)
  unfolding put_back
  put_back-HasDistinctKeys m d =
      append-HasDistinctKeys (remove k m) (ground (arith, lookup-remove k k m, ==_self k))
        (remove-HasDistinctKeys m d)

  pub remove_absent : (m : Entries) → lookup k m ≡ none → remove k m ≡ m
  unfolding lookup remove
  remove_absent [] h = refl
  remove_absent ((j, f) ∷ m) h = ground (arith, remove_absent m)

  length-remove :
      (m : Entries) (f : CacheEntry)
      → HasDistinctKeys m
      → lookup k m ≡ some f
      → suc (length (remove k m)) ≡ length m
  unfolding lookup remove
  length-remove [] f d h = cc
  length-remove ((j, g) ∷ m) f d h = elim (Bool-cases (j == k)) [
    | inl same ↦ ground (arith, remove_absent m, ==_iff j k)
    | inr other ↦ ground (arith, length-remove m f d.1)
  ]

  -- An entry that was there is moved, and one that was not is added.
  pub length-put_back-some :
      (m : Entries) (f : CacheEntry)
      → HasDistinctKeys m
      → lookup k m ≡ some f
      → length (put_back k e m) ≡ length m
  unfolding put_back
  length-put_back-some m f d h =
      omega (arith, length-append {0} (remove k m) ((k, e) ∷ []), length-remove m f d h)

  pub length-put_back-none :
      (m : Entries) → lookup k m ≡ none → length (put_back k e m) ≡ suc (length m)
  unfolding put_back
  length-put_back-none m h =
      rw (remove_absent m h) (omega (arith, length-append {0} m ((k, e) ∷ [])))

-- `entry.dirty = false`
abbrev pub cleaned : Option CacheEntry → Option CacheEntry
cleaned none = none
cleaned (some entry) = some (record entry { dirty = false })

pub lookup-mark_clean :
    (k j : ℕ) (m : Entries)
    → lookup j (mark_clean k m) ≡ (if k == j then cleaned (lookup j m) else lookup j m)
unfolding lookup mark_clean
lookup-mark_clean k j [] = ground arith
lookup-mark_clean k j ((i, e) ∷ m) = ground (arith, lookup-mark_clean k j m, ==_iff i k, ==_iff k j)

pub length-mark_clean : (k : ℕ) (m : Entries) → length (mark_clean k m) ≡ length m
unfolding mark_clean
length-mark_clean k [] = refl
length-mark_clean k ((i, e) ∷ m) = ap suc (length-mark_clean k m)

pub mark_clean-HasDistinctKeys :
    (k : ℕ) (m : Entries) → HasDistinctKeys m → HasDistinctKeys (mark_clean k m)
unfolding mark_clean
mark_clean-HasDistinctKeys k [] d = tt
mark_clean-HasDistinctKeys k ((i, e) ∷ m) d =
    (ground (arith, lookup-mark_clean k i m), mark_clean-HasDistinctKeys k m d.1)
