-- ===== src/Vfs/Tree/Names.antt =====
-- The names in a tree that is built: src/lib/storage/vfs/rust/src/tree_builder.rs.
use fuchsia_storage.Shared.{
  ℕ, ◌<◌, true, false, List, [], ◌∷◌, ◌++◌, length, Option, none, some, leb, if◌then◌else◌, ◌≡◌,
  refl, subst, arith, Bool-cases, inl, inr, tests,
}
use fuchsia_storage.Vfs.Directory.Entries.{Name, name_eq}
use fuchsia_storage.Vfs.Directory.Entries.Order.{name_eq→eq, name_eq_refl}
use fuchsia_storage.Vfs.Directory.Simple.{contains_slash}
use fuchsia_storage.Vfs.Tree.{
  TreeBuilder, directory, leaf, Children, nothing, child, Outcome, ok, err, entry_inside_leaf, get,
  insert_child, empty_dir, Inserter, insert_leaf, insert_directory_over, insert_directory,
  child_or_new, keep_child, at_end, check_name, add_path, add_entry, add_empty_dir,
}
use fuchsia_storage.Vfs.Tree.Leaves.{get-insert_child}

-- A name that a directory takes.
abbrev pub IsGoodName : ℕ → Name → Type 0
IsGoodName max_filename name = (length name < max_filename) × (contains_slash name ≡ false)

-- Every component is a good name, and no directory has the same one twice.
abbrev mutual
  pub IsBuildable : ℕ → TreeBuilder → Type 0
  IsBuildable max_filename (leaf entry) = Unit {0}
  IsBuildable max_filename (directory entries) = AreBuildable max_filename entries

  pub AreBuildable : ℕ → Children → Type 0
  AreBuildable max_filename nothing = Unit {0}
  AreBuildable max_filename (child name tree rest) =
      IsGoodName max_filename name
      × (get name rest ≡ none)
      × IsBuildable max_filename tree
      × AreBuildable max_filename rest

module _ (max_filename : ℕ) where
  get-IsBuildable :
      (name : Name) (entries : Children) (tree : TreeBuilder)
      → AreBuildable max_filename entries
      → get name entries ≡ some tree
      → IsBuildable max_filename tree
  unfolding get
  get-IsBuildable name nothing tree h e = cc
  get-IsBuildable name (child n t rest) tree (good, fresh, first, others) e =
      elim (Bool-cases (name_eq n name)) [
        | inl same ↦ subst_tree first (some_of same e)
        | inr other ↦ get-IsBuildable name rest tree others (rest_of other e)
      ]
    where
      some_of :
          name_eq n name ≡ true
          → (if name_eq n name then some t else get name rest) ≡ some tree
          → t ≡ tree
      some_of same q = ground arith

      rest_of :
          name_eq n name ≡ false
          → (if name_eq n name then some t else get name rest) ≡ some tree
          → get name rest ≡ some tree
      rest_of other q = ground arith

      subst_tree : IsBuildable max_filename t → t ≡ tree → IsBuildable max_filename tree
      subst_tree b q = subst (IsBuildable max_filename) q b

  insert_child-AreBuildable :
      (name : Name) (tree : TreeBuilder) (entries : Children)
      → IsGoodName max_filename name
      → IsBuildable max_filename tree
      → AreBuildable max_filename entries
      → AreBuildable max_filename (insert_child name tree entries)
  unfolding insert_child get
  insert_child-AreBuildable name tree nothing good b h = (good, refl, b, tt)
  insert_child-AreBuildable name tree (child n t rest) good b (g, fresh, first, others) =
      elim (Bool-cases (name_eq n name)) [
        | inl same ↦ rw same (g, fresh, b, others)
        | inr other ↦
            rw other (g, still other, first, insert_child-AreBuildable name tree rest good b others)
      ]
    where
      still : name_eq n name ≡ false → get n (insert_child name tree rest) ≡ none
      still other = ground (arith, get-insert_child name n tree rest, flip)
        where
          flip : name_eq name n ≡ true → name_eq n name ≡ true
          flip q = rw (name_eq→eq name n q) (rw (name_eq_refl n) refl)

  -- What an inserter keeps of a directory under a good name.
  abbrev Keeps : Inserter → Type 0
  Keeps inserter =
      (entries : Children) (name : Name) (traversed : List Name)
      → IsGoodName max_filename name
      → AreBuildable max_filename entries
      → AreBuildable max_filename (inserter entries name traversed).0

  insert_leaf-Keeps : (full_path : List Name) (entry : ℕ) → Keeps (insert_leaf full_path entry)
  unfolding insert_leaf
  insert_leaf-Keeps full_path entry entries name traversed good h =
      insert_child-AreBuildable name (leaf entry) entries good tt h

  insert_directory-Keeps : (full_path : List Name) → Keeps (insert_directory full_path)
  unfolding insert_directory
  insert_directory-Keeps full_path entries name traversed good h = by_old (get name entries)
    where
      by_old :
          (o : Option TreeBuilder)
          → AreBuildable max_filename (insert_directory_over full_path entries name traversed o).0
      by_old none = insert_child-AreBuildable name (directory nothing) entries good tt h
      by_old (some (directory children)) = h
      by_old (some (leaf entry)) = h

  check_name-IsBuildable :
      (full_path : List Name) (tree : TreeBuilder) (name : Name) (r : TreeBuilder × Outcome)
      → IsBuildable max_filename tree
      → (IsGoodName max_filename name → IsBuildable max_filename r.0)
      → IsBuildable max_filename (check_name max_filename full_path tree name r).0
  unfolding check_name
  check_name-IsBuildable full_path tree name r h k =
      elim (Bool-cases (leb max_filename (length name))) [
        | inl long ↦ rw long h
        | inr short ↦ rw short (elim (Bool-cases (contains_slash name)) [
          | inl slash ↦ rw slash h
          | inr plain ↦ rw plain (k (omega (tests, short), plain))
        ])
      ]

  keep_child-IsBuildable :
      (entries : Children) (name : Name) (old : Option TreeBuilder) (r : TreeBuilder × Outcome)
      → IsGoodName max_filename name
      → AreBuildable max_filename entries
      → IsBuildable max_filename r.0
      → IsBuildable max_filename (keep_child entries name old r).0
  unfolding keep_child
  keep_child-IsBuildable entries name none (t, ok) good h b =
      insert_child-AreBuildable name t entries good b h
  keep_child-IsBuildable entries name none (t, err e) good h b = h
  keep_child-IsBuildable entries name (some u) (t, outcome) good h b =
      insert_child-AreBuildable name t entries good b h

  child_or_new-IsBuildable :
      (entries : Children) (name : Name)
      → AreBuildable max_filename entries
      → IsBuildable max_filename (child_or_new (get name entries))
  unfolding child_or_new empty_dir
  child_or_new-IsBuildable entries name h =
      by_old (get name entries) (λ t e. get-IsBuildable name entries t h e)
    where
      by_old :
          (o : Option TreeBuilder)
          → ((t : TreeBuilder) → o ≡ some t → IsBuildable max_filename t)
          → IsBuildable max_filename (child_or_new o)
      by_old none k = tt
      by_old (some t) k = k t refl

  module _ (full_path : List Name) (inserter : Inserter) (keeps : Keeps inserter) where
    add_path-IsBuildable :
        (tree : TreeBuilder) (traversed : List Name) (name : Name) (rest : List Name)
        → IsBuildable max_filename tree
        → IsBuildable max_filename
            (add_path max_filename full_path inserter tree traversed name rest).0
    unfolding add_path at_end
    add_path-IsBuildable (leaf old) traversed name [] h =
        check_name-IsBuildable full_path (leaf old) name
          (at_end full_path inserter (leaf old) traversed name) h (λ good. tt)
    add_path-IsBuildable (directory entries) traversed name [] h =
        check_name-IsBuildable full_path (directory entries) name
          (at_end full_path inserter (directory entries) traversed name) h
          (λ good. keeps entries name traversed good h)
    add_path-IsBuildable (leaf old) traversed name (next ∷ rest) h =
        check_name-IsBuildable full_path (leaf old) name
          (leaf old, err (entry_inside_leaf full_path traversed)) h (λ good. tt)
    add_path-IsBuildable (directory entries) traversed name (next ∷ rest) h =
        let old = get name entries in
        let made =
          add_path max_filename full_path inserter (child_or_new old) (traversed ++ name ∷ []) next
            rest in
        check_name-IsBuildable full_path (directory entries) name (keep_child entries name old made)
          h
          (λ good. keep_child-IsBuildable entries name old made good h (
            add_path-IsBuildable (child_or_new old) (traversed ++ name ∷ []) next rest
              (child_or_new-IsBuildable entries name h)))

  -- An addition of an entry, whatever its outcome, keeps every name of the tree shorter than
  -- MAX_FILENAME, without a slash, and unique in its directory.
  pub add_entry-IsBuildable :
      (tree : TreeBuilder) (path : List Name) (entry : ℕ)
      → IsBuildable max_filename tree
      → IsBuildable max_filename (add_entry max_filename tree path entry).0
  unfolding add_entry
  add_entry-IsBuildable tree [] entry h = h
  add_entry-IsBuildable tree (name ∷ rest) entry h =
      add_path-IsBuildable (name ∷ rest) (insert_leaf (name ∷ rest) entry)
        (insert_leaf-Keeps (name ∷ rest) entry) tree [] name rest h

  -- So does that of an empty directory.
  pub add_empty_dir-IsBuildable :
      (tree : TreeBuilder) (path : List Name)
      → IsBuildable max_filename tree
      → IsBuildable max_filename (add_empty_dir max_filename tree path).0
  unfolding add_empty_dir
  add_empty_dir-IsBuildable tree [] h = h
  add_empty_dir-IsBuildable tree (name ∷ rest) h =
      add_path-IsBuildable (name ∷ rest) (insert_directory (name ∷ rest))
        (insert_directory-Keeps (name ∷ rest)) tree [] name rest h
