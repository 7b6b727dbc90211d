-- ===== src/Vfs/Service/Accepted.antt =====
-- Which flags a service accepts: src/lib/storage/vfs/rust/src/service/common.rs.
use fuchsia_storage.Shared.{
  ℕ, Bool, true, false, ◌||◌, ◌≡◌, refl, sym, ◌∙◌, arith, Bool-cases, inl, inr, if◌then◌else◌,
}
use fuchsia_storage.Vfs.Status.{ok, reject-eq_ok}
use fuchsia_storage.Vfs.Flags.{
  OpenFlags, intersects, only_node_reference, only_directory, only_right_readable, FioConstants,
}
use fuchsia_storage.Vfs.Service.{
  ServiceModes, reference_flags, forwarded_flags, ignored_flags, validate_service_flags,
}

-- The flags that remain of a request for the service node.
abbrev pub node_only : OpenFlags → OpenFlags
node_only f = record only_node_reference { describe = f.describe }

-- Those that remain of a request for the service behind it.
abbrev pub service_only : OpenFlags → OpenFlags
service_only f = record only_right_readable { right_writable = f.right_writable }

reference-node_only :
    (c : FioConstants) (f r : OpenFlags)
    → f.node_reference ≡ true
    → reference_flags c (ignored_flags f) ≡ ok r
    → r ≡ node_only f
unfolding reference_flags ignored_flags
reference-node_only c f r on h = let (q, same) = reject-eq_ok _ _ _ h in ground (arith, same)

forwarded-service_only :
    (f r : OpenFlags)
    → f.node_reference ≡ false
    → forwarded_flags (ignored_flags f) ≡ ok r
    → (r ≡ service_only f) × (f.right_readable ≡ true)
unfolding forwarded_flags ignored_flags
forwarded-service_only f r off h =
    let (readable, q) = reject-eq_ok _ _ _ h in
    let (described, q') = reject-eq_ok _ _ _ q in
    let (others, same) = reject-eq_ok _ _ _ q' in
    (ground (arith, same, others, readable), ground (arith, readable))

ignored-node_reference :
    (f : OpenFlags) → intersects (ignored_flags f) only_node_reference ≡ f.node_reference
unfolding ignored_flags
ignored-node_reference f = ground arith

ignored-directory : (f : OpenFlags) → intersects (ignored_flags f) only_directory ≡ f.directory
unfolding ignored_flags
ignored-directory f = ground arith

then_branch {ℓ} : {A : Type ℓ} (b : Bool) (x y : A) → b ≡ true → (if b then x else y) ≡ x
then_branch b x y h = rw h

else_branch {ℓ} : {A : Type ℓ} (b : Bool) (x y : A) → b ≡ false → (if b then x else y) ≡ y
else_branch b x y h = rw h

-- A service node that accepts a request for itself keeps NODE_REFERENCE and DESCRIBE and no other
-- flag; a service that accepts one for itself was asked for the right to read, and keeps it and the
-- right to write and no other flag.
pub validate_service-only :
    (c : FioConstants) (modes : ServiceModes) (f r : OpenFlags) (mode : ℕ)
    → validate_service_flags c modes f mode ≡ ok r
    → (r ≡ (if f.node_reference then node_only f else service_only f))
      × ((f.node_reference || f.right_readable) ≡ true)
      × (f.directory ≡ false)
unfolding validate_service_flags
validate_service-only c modes f r mode h =
    let (m, q) = reject-eq_ok _ _ _ h in
    let (d, q') = reject-eq_ok _ _ _ q in
    elim (Bool-cases f.node_reference) [
      | inl on ↦
          let refers = sym (then_branch _ _ _ (ignored-node_reference f ∙ on)) ∙ q' in
          rw on (reference-node_only c f r on refers, refl, sym (ignored-directory f) ∙ d)
      | inr off ↦
          let forwards = sym (else_branch _ _ _ (ignored-node_reference f ∙ off)) ∙ q' in
          let (same, readable) = forwarded-service_only f r off forwards in
          rw off (same, readable, sym (ignored-directory f) ∙ d)
    ]
