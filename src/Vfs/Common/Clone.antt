-- ===== src/Vfs/Common/Clone.antt =====
-- What `inherit_rights_for_clone` of src/lib/storage/vfs/rust/src/common.rs gives a cloned
-- connection.
use fuchsia_storage.Shared.{false, ◌||◌, ◌≡◌, arith, if◌then◌else◌}
use fuchsia_storage.Vfs.Status.{ok}
use fuchsia_storage.Vfs.Flags.{
  OpenFlags, intersects, posix, FioConstants, RightsLaw, with_rights, eq-with_rights,
}
use fuchsia_storage.Vfs.Common.{inherit_rights_for_clone, WithinRights}

-- The flags `r` of a connection cloned with flags `f` from one with flags `p`.
pub record IsClone (p f r : OpenFlags) : Type 0 where
  pub readable :
      r.right_readable ≡ (if f.clone_same_rights then p.right_readable else f.right_readable)
  pub writable :
      r.right_writable ≡ (if f.clone_same_rights then p.right_writable else f.right_writable)
  pub executable :
      r.right_executable ≡ (if f.clone_same_rights then p.right_executable else f.right_executable)
  pub within : WithinRights p r
  pub append : r.append ≡ (p.append || f.append)
  pub node_reference : r.node_reference ≡ (p.node_reference || f.node_reference)
  pub describe : r.describe ≡ f.describe
  pub no_posix : intersects r posix ≡ false
  pub no_clone_flag : r.clone_same_rights ≡ false

module _ (c : FioConstants) (p f r : OpenFlags) where
  documented_readable :
      inherit_rights_for_clone (with_rights c) p f ≡ ok r
      → (r.right_readable ≡ (if f.clone_same_rights then p.right_readable else f.right_readable))
  unfolding inherit_rights_for_clone
  documented_readable h = ground arith

  documented-WithinRights : inherit_rights_for_clone (with_rights c) p f ≡ ok r → WithinRights p r
  unfolding inherit_rights_for_clone
  documented-WithinRights h = ground arith

  documented-IsClone : inherit_rights_for_clone (with_rights c) p f ≡ ok r → IsClone p f r
  unfolding inherit_rights_for_clone
  documented-IsClone h = ground arith

-- Where `OPEN_RIGHTS` is the set of the three rights, a clone has the rights that it asked for, or
-- those of its parent under CLONE_SAME_RIGHTS, never one that the parent lacks; it keeps the
-- parent's APPEND and NODE_REFERENCE and loses the POSIX flags and CLONE_SAME_RIGHTS.
pub inherit_rights_for_clone-IsClone :
    (c : FioConstants) (p f r : OpenFlags)
    → RightsLaw c
    → inherit_rights_for_clone c p f ≡ ok r
    → IsClone p f r
inherit_rights_for_clone-IsClone c p f r law h =
    documented-IsClone c p f r (rw (← eq-with_rights c law) h)
