-- ===== src/Vfs/File/Flags/Bounds.antt =====
-- What a validated file connection may do: src/lib/storage/vfs/rust/src/file/common.rs.
use fuchsia_storage.Shared.{Bool, true, false, not, ◌&&◌, ◌||◌, ◌≡◌, sym, ◌∙◌, arith}
use fuchsia_storage.Vfs.Status.{ok, reject-eq_ok}
use fuchsia_storage.Vfs.Flags.{OpenFlags, intersects, complement, posix, FioConstants}
use fuchsia_storage.Vfs.File.Flags.{
  new_connection_validate_flags, clean, allowed_flags, prohibited_flags,
}

-- The flags `r` that a file of the given access accepts, from the request `f`.
pub record IsAccepted (f r : OpenFlags) (readable writable executable append_allowed : Bool)
    : Type 0 where
  pub readable_only : r.right_readable ≡ true → (readable && not f.node_reference) ≡ true
  pub writable_only : r.right_writable ≡ true → (writable && not f.node_reference) ≡ true
  pub executable_only : r.right_executable ≡ true → (executable && not f.node_reference) ≡ true
  pub truncate_writes : r.truncate ≡ true → r.right_writable ≡ true
  pub append_allowed_only : r.append ≡ true → (writable && append_allowed) ≡ true
  pub no_directory : (r.directory || r.not_directory) ≡ false
  pub no_posix : intersects r posix ≡ false
  pub no_clone : (r.clone_same_rights || r.other) ≡ false

-- Three facts that the tests give of the flags that pass them.
abbrev Passes : OpenFlags → OpenFlags → Type 0
Passes r allowed = intersects r (complement allowed) ≡ false

module _ (r allowed : OpenFlags) where
  pass_append : Passes r allowed → r.append ≡ true → allowed.append ≡ true
  pass_append h = ground arith

  pass_directory : Passes r allowed → r.directory ≡ true → allowed.directory ≡ true
  pass_directory h = ground arith

  pass_not_directory : Passes r allowed → r.not_directory ≡ true → allowed.not_directory ≡ true
  pass_not_directory h = ground arith

  pass_clone : Passes r allowed → r.clone_same_rights ≡ true → allowed.clone_same_rights ≡ true
  pass_clone h = ground arith

  pass_other : Passes r allowed → r.other ≡ true → allowed.other ≡ true
  pass_other h = ground arith

  pass_truncate : intersects r allowed ≡ false → allowed.truncate ≡ true → r.truncate ≡ false
  pass_truncate h = ground arith

-- The tests of `new_connection_validate_flags`, on cleaned flags.
module _ (r : OpenFlags) (readable writable executable append_allowed : Bool) where
  abbrev the_allowed : OpenFlags
  the_allowed = allowed_flags readable writable executable append_allowed

  allowed-append : the_allowed.append ≡ (writable && append_allowed)
  unfolding allowed_flags
  allowed-append = ground arith

  allowed-directory : the_allowed.directory ≡ false
  unfolding allowed_flags
  allowed-directory = ground arith

  allowed-not_directory : the_allowed.not_directory ≡ false
  unfolding allowed_flags
  allowed-not_directory = ground arith

  allowed-clone : the_allowed.clone_same_rights ≡ false
  unfolding allowed_flags
  allowed-clone = ground arith

  allowed-other : the_allowed.other ≡ false
  unfolding allowed_flags
  allowed-other = ground arith

  append_only : Passes r the_allowed → r.append ≡ true → (writable && append_allowed) ≡ true
  append_only h t = sym allowed-append ∙ pass_append r the_allowed h t

  others_directory : Passes r the_allowed → (r.directory || r.not_directory) ≡ false
  others_directory h = ground (
    arith,
    pass_directory r the_allowed h,
    pass_not_directory r the_allowed h,
    allowed-directory,
    allowed-not_directory,
  )

  others_clone : Passes r the_allowed → (r.clone_same_rights || r.other) ≡ false
  others_clone h =
      ground (
        arith,
        pass_clone r the_allowed h,
        pass_other r the_allowed h,
        allowed-clone,
        allowed-other,
      )

prohibited-truncate :
    (f allowed : OpenFlags) (readable writable : Bool)
    → f.right_writable ≡ false
    → (prohibited_flags f readable writable allowed).truncate ≡ true
unfolding prohibited_flags
prohibited-truncate f allowed readable writable h = ground arith

truncate_only :
    (r : OpenFlags) (allowed : OpenFlags) (readable writable : Bool)
    → intersects r (prohibited_flags r readable writable allowed) ≡ false
    → r.truncate ≡ true
    → r.right_writable ≡ true
truncate_only r allowed readable writable h t = ground (
  arith,
  prohibited-truncate r allowed readable writable,
  pass_truncate r (prohibited_flags r readable writable allowed) h,
)

clean-posix : (c : FioConstants) (f : OpenFlags) → intersects (clean c f) posix ≡ false
unfolding clean
clean-posix c f = ground arith

module _ (c : FioConstants) (f r : OpenFlags)
    (readable writable executable append_allowed : Bool) where
  -- A file accepts a request for no right that it does not offer, and for none at all on a node
  -- reference; it truncates only when opened for writing, appends only where that is allowed, and
  -- keeps no directory, POSIX or clone flag and none that the code does not name.
  pub new_connection_validate_flags-IsAccepted :
      new_connection_validate_flags c f readable writable executable append_allowed ≡ ok r
      → IsAccepted f r readable writable executable append_allowed
  unfolding new_connection_validate_flags
  new_connection_validate_flags-IsAccepted h =
      let a = reject-eq_ok _ _ _ h in
      let b = reject-eq_ok _ _ _ a.1 in
      let d = reject-eq_ok _ _ _ b.1 in
      let e = reject-eq_ok _ _ _ d.1 in
      let g = reject-eq_ok _ _ _ e.1 in
      let k = reject-eq_ok _ _ _ g.1 in
      let same : r ≡ clean c f = cc (k.1) in
      let appends = append_only (clean c f) _ _ _ _ k.0 in
      record {
        readable_only = rw same (ground (arith, b.0));
        writable_only = rw same (ground (arith, d.0));
        executable_only = rw same (ground (arith, e.0));
        truncate_writes = rw same (truncate_only (clean c f) _ _ _ g.0);
        append_allowed_only = rw same (λ t. ground (arith, appends t));
        no_directory = rw same (others_directory (clean c f) _ _ _ _ k.0);
        no_posix = rw same (clean-posix c f);
        no_clone = rw same (others_clone (clean c f) _ _ _ _ k.0);
      }
