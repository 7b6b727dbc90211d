-- ===== src/Vfs/Flags.antt =====
-- `fio::OpenFlags` as a set of flags: a field for each flag that src/lib/storage/vfs/rust/src
-- names, and `other` for a flag that it does not name (the functions treat all such flags alike). A
-- constant is written as the second operand, where the operations compute.
use fuchsia_storage.Shared.{ℕ, ◌≡◌, arith, Bool, true, false, not, ◌&&◌, ◌||◌}

pub record OpenFlags : Type 0 where
  pub right_readable : Bool
  pub right_writable : Bool
  pub right_executable : Bool
  pub create : Bool
  pub create_if_absent : Bool
  pub truncate : Bool
  pub directory : Bool
  pub append : Bool
  pub node_reference : Bool
  pub describe : Bool
  pub posix_deprecated : Bool
  pub posix_writable : Bool
  pub posix_executable : Bool
  pub not_directory : Bool
  pub clone_same_rights : Bool
  pub other : Bool

-- `OpenFlags::empty()`
abbrev pub none_set : OpenFlags
none_set = record {
  right_readable = false;
  right_writable = false;
  right_executable = false;
  create = false;
  create_if_absent = false;
  truncate = false;
  directory = false;
  append = false;
  node_reference = false;
  describe = false;
  posix_deprecated = false;
  posix_writable = false;
  posix_executable = false;
  not_directory = false;
  clone_same_rights = false;
  other = false;
}

-- `a | b`
infixl 65 ◌∪◌
abbrev pub ◌∪◌ : OpenFlags → OpenFlags → OpenFlags
a ∪ b = record {
  right_readable = b.right_readable || a.right_readable;
  right_writable = b.right_writable || a.right_writable;
  right_executable = b.right_executable || a.right_executable;
  create = b.create || a.create;
  create_if_absent = b.create_if_absent || a.create_if_absent;
  truncate = b.truncate || a.truncate;
  directory = b.directory || a.directory;
  append = b.append || a.append;
  node_reference = b.node_reference || a.node_reference;
  describe = b.describe || a.describe;
  posix_deprecated = b.posix_deprecated || a.posix_deprecated;
  posix_writable = b.posix_writable || a.posix_writable;
  posix_executable = b.posix_executable || a.posix_executable;
  not_directory = b.not_directory || a.not_directory;
  clone_same_rights = b.clone_same_rights || a.clone_same_rights;
  other = b.other || a.other;
}

-- `a & b`
infixl 70 ◌∩◌
abbrev pub ◌∩◌ : OpenFlags → OpenFlags → OpenFlags
a ∩ b = record {
  right_readable = b.right_readable && a.right_readable;
  right_writable = b.right_writable && a.right_writable;
  right_executable = b.right_executable && a.right_executable;
  create = b.create && a.create;
  create_if_absent = b.create_if_absent && a.create_if_absent;
  truncate = b.truncate && a.truncate;
  directory = b.directory && a.directory;
  append = b.append && a.append;
  node_reference = b.node_reference && a.node_reference;
  describe = b.describe && a.describe;
  posix_deprecated = b.posix_deprecated && a.posix_deprecated;
  posix_writable = b.posix_writable && a.posix_writable;
  posix_executable = b.posix_executable && a.posix_executable;
  not_directory = b.not_directory && a.not_directory;
  clone_same_rights = b.clone_same_rights && a.clone_same_rights;
  other = b.other && a.other;
}

-- `!a`
abbrev pub complement : OpenFlags → OpenFlags
complement a = record {
  right_readable = not a.right_readable;
  right_writable = not a.right_writable;
  right_executable = not a.right_executable;
  create = not a.create;
  create_if_absent = not a.create_if_absent;
  truncate = not a.truncate;
  directory = not a.directory;
  append = not a.append;
  node_reference = not a.node_reference;
  describe = not a.describe;
  posix_deprecated = not a.posix_deprecated;
  posix_writable = not a.posix_writable;
  posix_executable = not a.posix_executable;
  not_directory = not a.not_directory;
  clone_same_rights = not a.clone_same_rights;
  other = not a.other;
}

-- `a.intersects(b)`
abbrev pub intersects : OpenFlags → OpenFlags → Bool
intersects a b =
    b.right_readable && a.right_readable
    || b.right_writable && a.right_writable
    || b.right_executable && a.right_executable
    || b.create && a.create
    || b.create_if_absent && a.create_if_absent
    || b.truncate && a.truncate
    || b.directory && a.directory
    || b.append && a.append
    || b.node_reference && a.node_reference
    || b.describe && a.describe
    || b.posix_deprecated && a.posix_deprecated
    || b.posix_writable && a.posix_writable
    || b.posix_executable && a.posix_executable
    || b.not_directory && a.not_directory
    || b.clone_same_rights && a.clone_same_rights
    || b.other && a.other

abbrev pub only_right_readable : OpenFlags
only_right_readable = record none_set { right_readable = true }

abbrev pub only_right_writable : OpenFlags
only_right_writable = record none_set { right_writable = true }

abbrev pub only_right_executable : OpenFlags
only_right_executable = record none_set { right_executable = true }

abbrev pub only_create : OpenFlags
only_create = record none_set { create = true }

abbrev pub only_create_if_absent : OpenFlags
only_create_if_absent = record none_set { create_if_absent = true }

abbrev pub only_truncate : OpenFlags
only_truncate = record none_set { truncate = true }

abbrev pub only_directory : OpenFlags
only_directory = record none_set { directory = true }

abbrev pub only_append : OpenFlags
only_append = record none_set { append = true }

abbrev pub only_node_reference : OpenFlags
only_node_reference = record none_set { node_reference = true }

abbrev pub only_describe : OpenFlags
only_describe = record none_set { describe = true }

abbrev pub only_posix_deprecated : OpenFlags
only_posix_deprecated = record none_set { posix_deprecated = true }

abbrev pub only_posix_writable : OpenFlags
only_posix_writable = record none_set { posix_writable = true }

abbrev pub only_posix_executable : OpenFlags
only_posix_executable = record none_set { posix_executable = true }

abbrev pub only_not_directory : OpenFlags
only_not_directory = record none_set { not_directory = true }

abbrev pub only_clone_same_rights : OpenFlags
only_clone_same_rights = record none_set { clone_same_rights = true }

-- The three rights, and the flags that stand for rights that the parent decides on.
abbrev pub rights : OpenFlags
rights = only_right_readable ∪ only_right_writable ∪ only_right_executable

abbrev pub posix : OpenFlags
posix = only_posix_deprecated ∪ only_posix_writable ∪ only_posix_executable

-- Generated constants of fuchsia.io, which the development takes as parameters.
pub record FioConstants : Type 0 where
  pub open_rights : OpenFlags
  pub allowed_with_node_reference : OpenFlags
  pub mode_type_mask : ℕ
  pub mode_type_directory : ℕ

-- What fuchsia.io documents of `OPEN_RIGHTS`: it is the set of the three rights.
abbrev pub RightsLaw : FioConstants → Type 0
RightsLaw c = c.open_rights ≡ rights

-- The value that src/lib/storage/vfs/cpp/connection.cc asserts of
-- `OPEN_FLAGS_ALLOWED_WITH_NODE_REFERENCE`.
abbrev pub node_reference_flags : OpenFlags
node_reference_flags = only_directory ∪ only_not_directory ∪ only_describe ∪ only_node_reference

abbrev pub NodeReferenceLaw : FioConstants → Type 0
NodeReferenceLaw c = c.allowed_with_node_reference ≡ node_reference_flags

abbrev pub with_rights : FioConstants → FioConstants
with_rights c = record c { open_rights = rights }

pub eq-with_rights : (c : FioConstants) → RightsLaw c → c ≡ with_rights c
eq-with_rights c law = ground arith

-- Both laws.
pub record FioLaws (c : FioConstants) : Type 0 where
  pub of_rights : RightsLaw c
  pub of_node_reference : NodeReferenceLaw c

-- The constants with the documented sets put in.
abbrev pub documented : FioConstants → FioConstants
documented c = record c { open_rights = rights; allowed_with_node_reference = node_reference_flags }

pub eq-documented : (c : FioConstants) → FioLaws c → c ≡ documented c
eq-documented c law = ground (arith, law.of_rights, law.of_node_reference)
