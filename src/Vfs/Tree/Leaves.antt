-- ===== src/Vfs/Tree/Leaves.antt =====
-- The leaves that the paths of a tree lead to: src/lib/storage/vfs/rust/src/tree_builder.rs.
use fuchsia_storage.Shared.{
  ℕ, Bool, true, false, ◌&&◌, List, [], ◌∷◌, Option, none, some, if◌then◌else◌, ◌≡◌, refl, ap, sym,
  ◌∙◌, arith, Bool-cases, inl, inr,
}
use fuchsia_storage.Vfs.Directory.Entries.{Name, name_eq}
use fuchsia_storage.Vfs.Directory.Entries.Order.{name_eq_refl, name_eq→eq}
use fuchsia_storage.Vfs.Tree.{
  TreeBuilder, directory, leaf, Children, nothing, child, leaf_over_directory, leaf_over_leaf,
  empty_path, slash_in_component, component_name_too_long, entry_inside_leaf, Outcome, ok, err, get,
  insert_child, empty_dir, child_or_new,
}

pub get-insert_child :
    (name j : Name) (t : TreeBuilder) (m : Children)
    → get j (insert_child name t m) ≡ (if name_eq name j then some t else get j m)
unfolding get insert_child
get-insert_child name j t nothing = refl
get-insert_child name j t (child n u m) = ground (
  arith,
  get-insert_child name j t m,
  name_eq→eq n name,
  name_eq→eq name j,
  name_eq→eq n j,
  name_eq_refl j,
)

abbrev pub path_eq : List Name → List Name → Bool
path_eq [] [] = true
path_eq [] (n ∷ q) = false
path_eq (m ∷ p) [] = false
path_eq (m ∷ p) (n ∷ q) = name_eq m n && path_eq p q

-- The tree below a component, and at a path.
abbrev pub below : Name → Option TreeBuilder → Option TreeBuilder
below name none = none
below name (some (leaf entry)) = none
below name (some (directory entries)) = get name entries

unfoldable pub find : Option TreeBuilder → List Name → Option TreeBuilder
find tree [] = tree
find tree (name ∷ path) = find (below name tree) path

abbrev pub leaf_of : Option TreeBuilder → Option ℕ
leaf_of none = none
leaf_of (some (leaf entry)) = some entry
leaf_of (some (directory entries)) = none

-- The entry at a path, if there is one: what the tree that is built has there.
abbrev pub find_leaf : TreeBuilder → List Name → Option ℕ
find_leaf tree path = leaf_of (find (some tree) path)

pub find-none : (q : List Name) → find none q ≡ none
unfolding find
find-none [] = refl
find-none (name ∷ q) = find-none q

find_leaf-empty_dir : (q : List Name) → find_leaf empty_dir q ≡ none
unfolding find empty_dir get
find_leaf-empty_dir [] = refl
find_leaf-empty_dir (name ∷ q) = ap leaf_of (find-none q)

pub find_leaf-child_or_new :
    (o : Option TreeBuilder) (q : List Name) → find_leaf (child_or_new o) q ≡ leaf_of (find o q)
unfolding child_or_new
find_leaf-child_or_new none q = find_leaf-empty_dir q ∙ sym (ap leaf_of (find-none q))
find_leaf-child_or_new (some t) q = refl

-- What is found where the child of one name is another.
pub find_leaf-insert_child :
    (name : Name) (t : TreeBuilder) (entries : Children) (n : Name) (q : List Name)
    → find_leaf (directory (insert_child name t entries)) (n ∷ q)
      ≡ (if name_eq name n then find_leaf t q else find_leaf (directory entries) (n ∷ q))
unfolding find
find_leaf-insert_child name t entries n q = elim (Bool-cases (name_eq name n)) [
  | inl e ↦ rw e (
      ap (λ (o : Option TreeBuilder). leaf_of (find o q))
        (get-insert_child name n t entries ∙ only e))
  | inr e ↦ rw e (
      ap (λ (o : Option TreeBuilder). leaf_of (find o q))
        (get-insert_child name n t entries ∙ only e))
]
  where
    only :
        {b : Bool}
        → name_eq name n ≡ b
        → (if name_eq name n then some t else get n entries) ≡ (if b then some t else get n entries)
    only e = ap (λ (b : Bool). if b then some t else get n entries) e

abbrev pub SameLeaves : TreeBuilder → TreeBuilder → Type 0
SameLeaves tree tree' = (q : List Name) → find_leaf tree' q ≡ find_leaf tree q

-- The leaf is at the path, where there was something before.
abbrev pub Replaced : ℕ → TreeBuilder → List Name → TreeBuilder → Type 0
Replaced entry tree path tree' =
    (find_leaf tree' path ≡ some entry) × (find (some tree) path ≡ none → ⊥)

-- What an addition does, by its outcome: one that succeeds changes the leaf at its path and no
-- other; one that is refused since there is a leaf or a directory has insert_child its leaf there;
-- and one that is refused for another reason changes no leaf.
abbrev pub Adds : ℕ → TreeBuilder → List Name → TreeBuilder × Outcome → Type 0
Adds entry tree path (tree', ok) =
    (q : List Name) → find_leaf tree' q ≡ (if path_eq path q then some entry else find_leaf tree q)
Adds entry tree path (tree', err (leaf_over_directory p)) = Replaced entry tree path tree'
Adds entry tree path (tree', err (leaf_over_leaf p)) = Replaced entry tree path tree'
Adds entry tree path (tree', err empty_path) = SameLeaves tree tree'
Adds entry tree path (tree', err (slash_in_component p name)) = SameLeaves tree tree'
Adds entry tree path (tree', err (component_name_too_long p name)) = SameLeaves tree tree'
Adds entry tree path (tree', err (entry_inside_leaf p traversed)) = SameLeaves tree tree'
