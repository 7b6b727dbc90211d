-- ===== src/Vfs/Common.antt =====
-- Rights of cloned connections: src/lib/storage/vfs/rust/src/common.rs. `FioConstants` stands for
-- the generated constants.
pub mod Clone
use Prim.Native.Nat.{bit_or}
use fuchsia_storage.Shared.{ℕ, Bool, true, not, ◌&&◌, ◌≡◌, ◌↔◌, arith, if◌then◌else◌}
use fuchsia_storage.Vfs.Status.{Result, ok, err, invalid_args, access_denied}
use fuchsia_storage.Vfs.Flags.{
  OpenFlags, ◌∪◌, ◌∩◌, complement, intersects, posix, only_append, only_node_reference,
  only_clone_same_rights, FioConstants, RightsLaw,
}

unfoldable pub stricter_or_same_rights : FioConstants → OpenFlags → OpenFlags → Bool
stricter_or_same_rights c parent_flags flags =
    not (intersects (flags ∩ c.open_rights) (complement (parent_flags ∩ c.open_rights)))

-- One `let` for each assignment to `flags`.
unfoldable pub inherit_rights_for_clone : FioConstants → OpenFlags → OpenFlags → Result OpenFlags
unfolding stricter_or_same_rights
inherit_rights_for_clone c parent_flags flags =
    if intersects flags only_clone_same_rights && intersects flags c.open_rights
    then err invalid_args
    else let flags1 = flags ∪ parent_flags ∩ (only_append ∪ only_node_reference) in
      let flags2 =
        if intersects flags1 only_clone_same_rights
        then flags1 ∩ complement only_clone_same_rights ∪ parent_flags ∩ c.open_rights
        else flags1 in
      if not (stricter_or_same_rights c parent_flags flags2)
      then err access_denied
      else ok (flags2 ∩ complement posix)

-- `f` asks for no right that `p` lacks.
pub record WithinRights (p f : OpenFlags) : Type 0 where
  pub readable : f.right_readable ≡ true → p.right_readable ≡ true
  pub writable : f.right_writable ≡ true → p.right_writable ≡ true
  pub executable : f.right_executable ≡ true → p.right_executable ≡ true

-- Where `OPEN_RIGHTS` is the set of the three rights, the test decides exactly that the flags ask
-- for no right that the parent lacks.
pub stricter_iff :
    (c : FioConstants) (p f : OpenFlags)
    → RightsLaw c
    → (stricter_or_same_rights c p f ≡ true) ↔ WithinRights p f
unfolding stricter_or_same_rights
stricter_iff c p f law = rw law (ground arith)

-- `S_IRUSR`, `S_IWUSR` and `S_IXUSR` of libc
pub record ModeBits : Type 0 where
  pub read_bit : ℕ
  pub write_bit : ℕ
  pub execute_bit : ℕ

unfoldable pub rights_to_posix_mode_bits : ModeBits → Bool → Bool → Bool → ℕ
rights_to_posix_mode_bits bits readable writable executable =
    bit_or (bit_or (if readable then bits.read_bit else 0) (if writable then bits.write_bit else 0))
      (if executable then bits.execute_bit else 0)
