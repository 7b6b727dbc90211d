-- ===== src/Vfs/Directory/Flags/Escalation.antt =====
-- The rights of connections to children: src/lib/storage/vfs/rust/src/directory/common.rs.
use fuchsia_storage.Shared.{ℕ, not, ◌≡◌, true, false, ◌&&◌, ◌||◌, arith}
use fuchsia_storage.Vfs.Status.{reject-eq_ok, >>=-eq-ok, ok}
use fuchsia_storage.Vfs.Flags.{OpenFlags, FioConstants, RightsLaw}
use fuchsia_storage.Vfs.Common.{WithinRights, stricter_iff, stricter_or_same_rights}
use fuchsia_storage.Vfs.Directory.Flags.{
  new_connection_validate_flags, check_flags, check_mode, check_child_connection_flags,
  mask_node_reference, drop_directory, expand_posix, soften_posix,
}

-- Each step, field by field.
record IsExpanded (f r : OpenFlags) : Type 0 where
  readable : r.right_readable ≡ f.right_readable
  writable : r.right_writable ≡ (f.right_writable || f.posix_writable || f.posix_deprecated)
  executable : r.right_executable ≡ (f.right_executable || f.posix_executable || f.posix_deprecated)

expand_posix-IsExpanded : (f : OpenFlags) → IsExpanded f (expand_posix f)
unfolding expand_posix
expand_posix-IsExpanded f = record {
  readable = ground arith;
  writable = ground arith;
  executable = ground arith;
}

record IsSoftened (p f r : OpenFlags) : Type 0 where
  readable : r.right_readable ≡ f.right_readable
  writable : r.right_writable ≡ f.right_writable
  executable : r.right_executable ≡ f.right_executable
  posix_writable : r.posix_writable ≡ (p.right_writable && (f.posix_writable || f.posix_deprecated))
  posix_executable :
      r.posix_executable ≡ (p.right_executable && (f.posix_executable || f.posix_deprecated))
  posix_deprecated : r.posix_deprecated ≡ false

soften_posix-IsSoftened : (p f : OpenFlags) → IsSoftened p f (soften_posix p f)
unfolding soften_posix
soften_posix-IsSoftened p f = record {
  readable = ground arith;
  writable = ground arith;
  executable = ground arith;
  posix_writable = ground arith;
  posix_executable = ground arith;
  posix_deprecated = ground arith;
}

-- What the mask of a node reference and the loss of DIRECTORY leave.
record IsLess (f r : OpenFlags) : Type 0 where
  readable : r.right_readable ≡ true → f.right_readable ≡ true
  writable : r.right_writable ≡ true → f.right_writable ≡ true
  executable : r.right_executable ≡ true → f.right_executable ≡ true
  posix_writable : r.posix_writable ≡ true → f.posix_writable ≡ true
  posix_executable : r.posix_executable ≡ true → f.posix_executable ≡ true
  posix_deprecated : r.posix_deprecated ≡ true → f.posix_deprecated ≡ true

masked : FioConstants → OpenFlags → OpenFlags
masked c f = drop_directory (mask_node_reference c f)

masked-IsLess : (c : FioConstants) (f : OpenFlags) → IsLess f (masked c f)
unfolding masked drop_directory mask_node_reference
masked-IsLess c f = record {
  readable = ground arith;
  writable = ground arith;
  executable = ground arith;
  posix_writable = ground arith;
  posix_executable = ground arith;
  posix_deprecated = ground arith;
}

new_connection-eq_ok :
    (c : FioConstants) (f r : OpenFlags)
    → new_connection_validate_flags c f ≡ ok r
    → r ≡ expand_posix (masked c f)
unfolding new_connection_validate_flags masked
new_connection-eq_ok c f r h =
    let a = reject-eq_ok _ _ _ h in
    let b = reject-eq_ok _ _ _ a.1 in let d = reject-eq_ok _ _ _ b.1 in cc (d.1)

-- What an accepted set of flags has passed.
record IsChecked (c : FioConstants) (p f r : OpenFlags) : Type 0 where
  softened : r ≡ soften_posix p f
  strict : stricter_or_same_rights c p r ≡ true
  create : (not r.create || p.right_writable) ≡ true
  absent : (not f.create_if_absent || f.create) ≡ true
  no_clone : f.clone_same_rights ≡ false

check_flags-IsChecked :
    (c : FioConstants) (p f r : OpenFlags) → check_flags c p f ≡ ok r → IsChecked c p f r
unfolding check_flags
check_flags-IsChecked c p f r h =
    let a = reject-eq_ok _ _ _ h in
    let b = reject-eq_ok _ _ _ a.1 in
    let d = reject-eq_ok _ _ _ b.1 in
    let e = reject-eq_ok _ _ _ d.1 in
    let k = reject-eq_ok _ _ _ e.1 in
    let same : r ≡ soften_posix p f = cc (k.1) in
    record {
      softened = same;
      strict = rw same (ground (arith, k.0));
      create = rw same (ground (arith, e.0));
      absent = ground (arith, b.0);
      no_clone = ground (arith, d.0);
    }

open_within_documented :
    (c : FioConstants) (p f g r : OpenFlags)
    → RightsLaw c
    → check_flags c p f ≡ ok g
    → new_connection_validate_flags c g ≡ ok r
    → WithinRights p r
open_within_documented c p f g r law checked opened =
    let s = check_flags-IsChecked c p f g checked in
    let w = (stricter_iff c p g law).0 s.strict in
    let soft = rw (← s.softened) at (soften_posix-IsSoftened p f) in
    let less = masked-IsLess c g in
    let exp = rw (← new_connection-eq_ok c g r opened) at (expand_posix-IsExpanded (masked c g)) in
    record { readable = ground arith; writable = ground arith; executable = ground arith }

-- Where `OPEN_RIGHTS` is the set of the three rights: on opening a directory through a connection,
-- the flags that `check_child_connection_flags` passes and that the child then accepts hold no
-- right that the connection lacks, whatever the client asks for.
pub open_child_within :
    (c : FioConstants) (p f g r : OpenFlags) (mode mode' : ℕ)
    → RightsLaw c
    → check_child_connection_flags c p f mode ≡ ok (g, mode')
    → new_connection_validate_flags c g ≡ ok r
    → WithinRights p r
unfolding check_child_connection_flags
open_child_within c p f g r mode mode' law checked opened =
    let m = >>=-eq-ok (check_mode c f mode) _ checked in
    let k = >>=-eq-ok (check_flags c p f) (λ flags'. ok (flags', m.0)) m.2 in
    let same : g ≡ k.0 = cc (k.2) in open_within_documented c p f g r law (rw same (k.1)) opened

-- Flags that `check_child_connection_flags` passes ask to create only where the parent is writable,
-- and a request for CREATE_IF_ABSENT without CREATE, or for CLONE_SAME_RIGHTS, does not pass.
pub check_child-create :
    (c : FioConstants) (p f g : OpenFlags) (mode mode' : ℕ)
    → check_child_connection_flags c p f mode ≡ ok (g, mode')
    → ((not g.create || p.right_writable) ≡ true)
      × ((not f.create_if_absent || f.create) ≡ true)
      × (f.clone_same_rights ≡ false)
unfolding check_child_connection_flags
check_child-create c p f g mode mode' checked =
    let m = >>=-eq-ok (check_mode c f mode) _ checked in
    let k = >>=-eq-ok (check_flags c p f) (λ flags'. ok (flags', m.0)) m.2 in
    let same : g ≡ k.0 = cc (k.2) in
    let s = check_flags-IsChecked c p f g (rw same (k.1)) in (s.create, s.absent, s.no_clone)
