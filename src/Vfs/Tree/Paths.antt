-- ===== src/Vfs/Tree/Paths.antt =====
-- What is found in a tree after an addition: src/lib/storage/vfs/rust/src/tree_builder.rs.
use fuchsia_storage.Shared.{
  ℕ, true, List, [], ◌∷◌, ◌++◌, length, Option, none, some, leb, if◌then◌else◌, ◌≡◌, refl, ap,
  subst, sym, ◌∙◌, Bool-cases, inl, inr,
}
use fuchsia_storage.Vfs.Directory.Entries.{Name, name_eq}
use fuchsia_storage.Vfs.Directory.Entries.Order.{name_eq_refl, name_eq→eq}
use fuchsia_storage.Vfs.Directory.Simple.{contains_slash}
use fuchsia_storage.Vfs.Tree.{
  TreeBuilder, directory, leaf, Children, leaf_over_directory, leaf_over_leaf, empty_path,
  slash_in_component, component_name_too_long, entry_inside_leaf, Outcome, ok, err, get,
  insert_child, empty_dir, leaf_replaced, insert_leaf, child_or_new, keep_child, at_end, check_name,
  add_path, add_entry,
}
use fuchsia_storage.Vfs.Tree.Leaves.{
  path_eq, find, leaf_of, find_leaf, find-none, find_leaf-child_or_new, find_leaf-insert_child,
  SameLeaves, Replaced, Adds,
}

check_name-Adds :
    (max_filename entry : ℕ) (full_path : List Name) (tree : TreeBuilder) (name : Name)
    (rest : List Name) (continued : TreeBuilder × Outcome)
    → Adds entry tree (name ∷ rest) continued
    → Adds entry tree (name ∷ rest) (check_name max_filename full_path tree name continued)
unfolding check_name
check_name-Adds max_filename entry full_path tree name rest continued h =
    elim (Bool-cases (leb max_filename (length name))) [
      | inl long ↦ rw long (λ q. refl)
      | inr short ↦ rw short (elim (Bool-cases (contains_slash name)) [
        | inl slash ↦ rw slash (λ q. refl)
        | inr plain ↦ rw plain h
      ])
    ]

find_leaf_below_leaf :
    (entry : ℕ) (q : List Name)
    → find_leaf (leaf entry) q ≡ (if path_eq [] q then some entry else none)
unfolding find
find_leaf_below_leaf entry [] = refl
find_leaf_below_leaf entry (n ∷ q) = ap leaf_of (find-none q)

added_leaf :
    (entry : ℕ) (entries : Children) (name : Name)
    → get name entries ≡ none
    → (q : List Name)
    → find_leaf (directory (insert_child name (leaf entry) entries)) q
      ≡ (if path_eq (name ∷ []) q then some entry else find_leaf (directory entries) q)
unfolding find
added_leaf entry entries name e [] = refl
added_leaf entry entries name e (n ∷ q) =
    find_leaf-insert_child name (leaf entry) entries n q ∙ (elim (Bool-cases (name_eq name n)) [
      | inl same ↦
          let gone : find_leaf (directory entries) (n ∷ q) ≡ none =
            ap (λ (x : Name). find_leaf (directory entries) (x ∷ q)) (sym (name_eq→eq name n same))
            ∙ ap (λ (o : Option TreeBuilder). leaf_of (find o q)) e
            ∙ ap leaf_of (find-none q) in
          rw (same, gone) (find_leaf_below_leaf entry q)
      | inr other ↦ rw other refl
    ])

insert_leaf-Adds :
    (entry : ℕ) (full_path traversed : List Name) (entries : Children) (name : Name)
    → Adds entry
        (directory entries)
        (name ∷ [])
        (at_end full_path (insert_leaf full_path entry) (directory entries) traversed name)
unfolding at_end insert_leaf find
insert_leaf-Adds entry full_path traversed entries name = by_old (get name entries) refl
  where
    placed : find_leaf (directory (insert_child name (leaf entry) entries)) (name ∷ []) ≡ some entry
    placed = find_leaf-insert_child name (leaf entry) entries name [] ∙ rw (name_eq_refl name) refl

    was_there : {t : TreeBuilder} → ◌≡◌ {A = Option TreeBuilder} (some t) none → ⊥
    was_there q = cc

    by_old :
        (o : Option TreeBuilder)
        → get name entries ≡ o
        → Adds entry
            (directory entries)
            (name ∷ [])
            (directory (insert_child name (leaf entry) entries), leaf_replaced full_path o)
    by_old none e = added_leaf entry entries name e
    by_old (some (directory children)) e = (placed, λ q. was_there (sym e ∙ q))
    by_old (some (leaf old)) e = (placed, λ q. was_there (sym e ∙ q))

module _ (entries : Children) (name : Name) (path : List Name) (old : Option TreeBuilder)
    (t : TreeBuilder) (was : get name entries ≡ old) where
  old_leaf :
      (n : Name) (q : List Name)
      → name_eq name n ≡ true
      → find_leaf (child_or_new old) q ≡ find_leaf (directory entries) (n ∷ q)
  unfolding find
  old_leaf n q same =
      find_leaf-child_or_new old q
      ∙ ap (λ (o : Option TreeBuilder). leaf_of (find o q)) (sym was)
      ∙ ap (λ (x : Name). leaf_of (find (get x entries) q)) (name_eq→eq name n same)

  -- A leaf that comes in below a child comes in below its parent.
  deeper :
      (entry : ℕ)
      → ((q : List Name)
          → find_leaf t q ≡ (if path_eq path q then some entry else find_leaf (child_or_new old) q))
      → (q : List Name)
      → find_leaf (directory (insert_child name t entries)) q
        ≡ (if path_eq (name ∷ path) q then some entry else find_leaf (directory entries) q)
  unfolding find
  deeper entry h [] = refl
  deeper entry h (n ∷ q) =
      find_leaf-insert_child name t entries n q ∙ (elim (Bool-cases (name_eq name n)) [
        | inl same ↦ rw same (
            h q
            ∙ ap (λ (x : Option ℕ). if path_eq path q then some entry else x) (old_leaf n q same))
        | inr other ↦ rw other refl
      ])

  unchanged :
      SameLeaves (child_or_new old) t
      → SameLeaves (directory entries) (directory (insert_child name t entries))
  unfolding find
  unchanged h [] = refl
  unchanged h (n ∷ q) =
      find_leaf-insert_child name t entries n q ∙ (elim (Bool-cases (name_eq name n)) [
        | inl same ↦ rw same (h q ∙ old_leaf n q same)
        | inr other ↦ rw other refl
      ])

  replaced :
      (entry : ℕ) (u : TreeBuilder)
      → old ≡ some u
      → Replaced entry u path t
      → Replaced entry (directory entries) (name ∷ path) (directory (insert_child name t entries))
  unfolding find
  replaced entry u e (there, before) = (
    find_leaf-insert_child name t entries name path ∙ (rw (name_eq_refl name) there),
    λ q. before (ap (λ (o : Option TreeBuilder). find o path) (sym (was ∙ e)) ∙ q),
  )

-- Nothing is replaced in an empty directory.
nothing_replaced :
    (entry : ℕ) (name : Name) (path : List Name) (t : TreeBuilder)
    → Replaced entry empty_dir (name ∷ path) t
    → ⊥
unfolding find empty_dir get
nothing_replaced entry name path t (there, before) = before (find-none path)

keep_child-Adds :
    (entry : ℕ) (entries : Children) (name next : Name) (rest : List Name)
    (old : Option TreeBuilder) (r : TreeBuilder × Outcome)
    → get name entries ≡ old
    → Adds entry (child_or_new old) (next ∷ rest) r
    → Adds entry (directory entries) (name ∷ next ∷ rest) (keep_child entries name old r)
unfolding keep_child child_or_new
keep_child-Adds entry entries name next rest none (t, ok) e h =
    deeper entries name (next ∷ rest) none t e entry h
keep_child-Adds entry entries name next rest none (t, err (leaf_over_directory p)) e h =
    absurd (nothing_replaced entry next rest t h)
keep_child-Adds entry entries name next rest none (t, err (leaf_over_leaf p)) e h =
    absurd (nothing_replaced entry next rest t h)
keep_child-Adds entry entries name next rest none (t, err empty_path) e h = λ q. refl
keep_child-Adds entry entries name next rest none (t, err (slash_in_component p n)) e h = λ q. refl
keep_child-Adds entry entries name next rest none (t, err (component_name_too_long p n)) e h =
    λ q. refl
keep_child-Adds entry entries name next rest none (t, err (entry_inside_leaf p n)) e h = λ q. refl
keep_child-Adds entry entries name next rest (some u) (t, ok) e h =
    deeper entries name (next ∷ rest) (some u) t e entry h
keep_child-Adds entry entries name next rest (some u) (t, err (leaf_over_directory p)) e h =
    replaced entries name (next ∷ rest) (some u) t e entry u refl h
keep_child-Adds entry entries name next rest (some u) (t, err (leaf_over_leaf p)) e h =
    replaced entries name (next ∷ rest) (some u) t e entry u refl h
keep_child-Adds entry entries name next rest (some u) (t, err empty_path) e h =
    unchanged entries name (next ∷ rest) (some u) t e h
keep_child-Adds entry entries name next rest (some u) (t, err (slash_in_component p n)) e h =
    unchanged entries name (next ∷ rest) (some u) t e h
keep_child-Adds entry entries name next rest (some u) (t, err (component_name_too_long p n)) e h =
    unchanged entries name (next ∷ rest) (some u) t e h
keep_child-Adds entry entries name next rest (some u) (t, err (entry_inside_leaf p n)) e h =
    unchanged entries name (next ∷ rest) (some u) t e h

module _ (max_filename entry : ℕ) (full_path : List Name) where
  add_path-Adds :
      (tree : TreeBuilder) (traversed : List Name) (name : Name) (rest : List Name)
      → Adds entry tree
          (name ∷ rest)
          (add_path max_filename full_path (insert_leaf full_path entry) tree traversed name rest)
  unfolding add_path
  add_path-Adds (leaf old) traversed name [] =
      check_name-Adds max_filename entry full_path (leaf old) name []
        (at_end full_path (insert_leaf full_path entry) (leaf old) traversed name) (λ q. refl)
  add_path-Adds (directory entries) traversed name [] =
      check_name-Adds max_filename entry full_path (directory entries) name []
        (at_end full_path (insert_leaf full_path entry) (directory entries) traversed name)
        (insert_leaf-Adds entry full_path traversed entries name)
  add_path-Adds (leaf old) traversed name (next ∷ rest) =
      check_name-Adds max_filename entry full_path (leaf old) name (next ∷ rest)
        (leaf old, err (entry_inside_leaf full_path traversed)) (λ q. refl)
  add_path-Adds (directory entries) traversed name (next ∷ rest) =
      let old = get name entries in
      let made =
        add_path max_filename full_path (insert_leaf full_path entry) (child_or_new old)
          (traversed ++ name ∷ []) next rest in
      check_name-Adds max_filename entry full_path (directory entries) name (next ∷ rest)
        (keep_child entries name old made)
        (keep_child-Adds entry entries name next rest old made refl
          (add_path-Adds (child_or_new old) (traversed ++ name ∷ []) next rest))

module _ (max_filename : ℕ) (tree : TreeBuilder) (path : List Name) (entry : ℕ) where
  add_entry-Adds : Adds entry tree path (add_entry max_filename tree path entry)
  unfolding add_entry
  add_entry-Adds = elim path as (λ p. Adds entry tree p (add_entry max_filename tree p entry)) [
    | [] ↦ λ q. refl
    | name ∷ rest ↦ add_path-Adds max_filename entry (name ∷ rest) tree [] name rest
  ]

  -- An entry that is added is the leaf at its path, and the leaf, or none, at every other path is
  -- what it was.
  pub find_leaf-add_entry :
      (tree' : TreeBuilder)
      → add_entry max_filename tree path entry ≡ (tree', ok)
      → (q : List Name)
      → find_leaf tree' q ≡ (if path_eq path q then some entry else find_leaf tree q)
  find_leaf-add_entry tree' h = subst (Adds entry tree path) h add_entry-Adds

  -- An addition that is refused since there is a directory at its path has replaced it: the entry
  -- is the leaf at the path.
  pub add_entry_over_directory :
      (tree' : TreeBuilder) (p : List Name)
      → add_entry max_filename tree path entry ≡ (tree', err (leaf_over_directory p))
      → (find_leaf tree' path ≡ some entry) × (find (some tree) path ≡ none → ⊥)
  add_entry_over_directory tree' p h = subst (Adds entry tree path) h add_entry-Adds

  -- An addition that is refused since its path leads through a leaf changes no leaf.
  pub add_entry_inside_leaf :
      (tree' : TreeBuilder) (p traversed : List Name)
      → add_entry max_filename tree path entry ≡ (tree', err (entry_inside_leaf p traversed))
      → (q : List Name) → find_leaf tree' q ≡ find_leaf tree q
  add_entry_inside_leaf tree' p traversed h = subst (Adds entry tree path) h add_entry-Adds
