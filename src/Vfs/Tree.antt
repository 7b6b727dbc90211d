-- ===== src/Vfs/Tree.antt =====
-- The tree builder: src/lib/storage/vfs/rust/src/tree_builder.rs. The `HashMap` of a directory is
-- an association list, whose order is not observed; an entry is the number of the object behind the
-- `Arc`; `fio::MAX_FILENAME` is the parameter `max_filename`. An error carries its paths by their
-- components.
pub mod Leaves
pub mod Paths
pub mod Names
mod Tests
use fuchsia_storage.Shared.{
  ℕ, Bool, true, false, List, [], ◌∷◌, ◌++◌, length, Option, none, some, leb, if◌then◌else◌,
}
use fuchsia_storage.Vfs.Directory.Entries.{Name, name_eq}
use fuchsia_storage.Vfs.Directory.Simple.{contains_slash}

mutual
  pub data TreeBuilder : Type 0 where
    directory : Children → TreeBuilder
    leaf : ℕ → TreeBuilder

  pub data Children : Type 0 where
    nothing : Children
    child : Name → TreeBuilder → Children → Children

pub data Error : Type 0 where
  empty_path : Error
  slash_in_component : List Name → Name → Error
  component_name_too_long : List Name → Name → Error
  leaf_over_directory leaf_over_leaf : List Name → Error
  entry_inside_leaf : List Name → List Name → Error

pub data Outcome : Type 0 where
  ok : Outcome
  err : Error → Outcome

-- `HashMap::get` and `HashMap::insert`.
unfoldable pub get : Name → Children → Option TreeBuilder
get name nothing = none
get name (child n t rest) = if name_eq n name then some t else get name rest

unfoldable pub insert_child : Name → TreeBuilder → Children → Children
insert_child name tree nothing = child name tree nothing
insert_child name tree (child n t rest) =
    let kept = insert_child name tree rest in
    if name_eq n name then child n tree rest else child n t kept

unfoldable pub empty_dir : TreeBuilder
empty_dir = directory nothing

-- What an addition does at the end of its path, with the components that it came through.
abbrev pub Inserter : Type 0
Inserter = Children → Name → List Name → Children × Outcome

-- The closure of `add_entry`: the insertion comes before the test of what it has replaced.
unfoldable pub leaf_replaced : List Name → Option TreeBuilder → Outcome
leaf_replaced full_path none = ok
leaf_replaced full_path (some (directory entries)) = err (leaf_over_directory full_path)
leaf_replaced full_path (some (leaf entry)) = err (leaf_over_leaf full_path)

unfoldable pub insert_leaf : List Name → ℕ → Inserter
unfolding leaf_replaced get insert_child
insert_leaf full_path entry entries name traversed =
    (insert_child name (leaf entry) entries, leaf_replaced full_path (get name entries))

-- The closure of `add_empty_dir`.
unfoldable pub insert_directory_over :
    List Name → Children → Name → List Name → Option TreeBuilder → Children × Outcome
unfolding insert_child empty_dir
insert_directory_over full_path entries name traversed none =
    (insert_child name empty_dir entries, ok)
insert_directory_over full_path entries name traversed (some (directory children)) = (entries, ok)
insert_directory_over full_path entries name traversed (some (leaf entry)) =
    (entries, err (entry_inside_leaf full_path traversed))

unfoldable pub insert_directory : List Name → Inserter
unfolding insert_directory_over get
insert_directory full_path entries name traversed =
    insert_directory_over full_path entries name traversed (get name entries)

-- The tree that the recursive call is made on: the child, or a new directory.
unfoldable pub child_or_new : Option TreeBuilder → TreeBuilder
unfolding empty_dir
child_or_new none = empty_dir
child_or_new (some tree) = tree

-- What becomes of the child after the recursive call: a new one is inserted only if it succeeded,
-- and one that was there has changed in place.
unfoldable pub keep_child :
    Children → Name → Option TreeBuilder → TreeBuilder × Outcome → TreeBuilder × Outcome
unfolding insert_child
keep_child entries name none (tree, ok) = (directory (insert_child name tree entries), ok)
keep_child entries name none (tree, err e) = (directory entries, err e)
keep_child entries name (some old) (tree, outcome) =
    (directory (insert_child name tree entries), outcome)

unfoldable pub at_end :
    List Name → Inserter → TreeBuilder → List Name → Name → TreeBuilder × Outcome
at_end full_path inserter (directory entries) traversed name =
    let (entries', outcome) = inserter entries name traversed in (directory entries', outcome)
at_end full_path inserter (leaf entry) traversed name =
    (leaf entry, err (entry_inside_leaf full_path traversed))

module _ (max_filename : ℕ) where
  -- The tests of a component, and then the rest of `add_path`.
  unfoldable pub check_name :
      List Name → TreeBuilder → Name → TreeBuilder × Outcome → TreeBuilder × Outcome
  check_name full_path tree name continued =
      if leb max_filename (length name)
      then (tree, err (component_name_too_long full_path name))
      else if contains_slash name
      then (tree, err (slash_in_component full_path name))
      else continued

  unfoldable pub add_path :
      List Name → Inserter → TreeBuilder → List Name → Name → List Name → TreeBuilder × Outcome
  unfolding check_name at_end keep_child child_or_new get
  add_path full_path inserter tree traversed name [] =
      check_name full_path tree name (at_end full_path inserter tree traversed name)
  add_path full_path inserter (leaf entry) traversed name (next ∷ rest) =
      check_name full_path (leaf entry) name
        (leaf entry, err (entry_inside_leaf full_path traversed))
  add_path full_path inserter (directory entries) traversed name (next ∷ rest) =
      let old = get name entries in
      check_name full_path (directory entries) name (
        keep_child entries name old
          (add_path full_path inserter (child_or_new old) (traversed ++ name ∷ []) next rest))

  unfoldable pub add_entry : TreeBuilder → List Name → ℕ → TreeBuilder × Outcome
  unfolding add_path insert_leaf
  add_entry tree [] entry = (tree, err empty_path)
  add_entry tree (name ∷ rest) entry =
      add_path (name ∷ rest) (insert_leaf (name ∷ rest) entry) tree [] name rest

  unfoldable pub add_empty_dir : TreeBuilder → List Name → TreeBuilder × Outcome
  unfolding add_path insert_directory
  add_empty_dir tree [] = (tree, err empty_path)
  add_empty_dir tree (name ∷ rest) =
      add_path (name ∷ rest) (insert_directory (name ∷ rest)) tree [] name rest
