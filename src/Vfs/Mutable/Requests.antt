-- ===== src/Vfs/Mutable/Requests.antt =====
-- What requests to a mutable directory do:
-- src/lib/storage/vfs/rust/src/directory/mutable/connection/io1.rs.
use fuchsia_storage.Shared.{
  ℕ, Bool, true, false, ◌&&◌, ◌||◌, [], ◌∷◌, Option, none, some, ◌≡◌, refl, ◌∙◌, ap, arith,
}
use fuchsia_storage.Vfs.Status.{Status, Result, ok, err, reject-eq_ok, >>=-eq-ok}
use fuchsia_storage.Vfs.Flags.{OpenFlags}
use fuchsia_storage.Vfs.Directory.Entries.{Name, name_eq}
use fuchsia_storage.Vfs.Directory.Simple.{Inner, unlink, contains_slash}
use fuchsia_storage.Vfs.PathString.{
  PathLimits, PathString, validate_and_split, is_single_component, into_string, is_empty_string,
}
use fuchsia_storage.Vfs.Registry.Token
use fuchsia_storage.Vfs.Filesystem.{Store, rename}
use fuchsia_storage.Vfs.Filesystem.Rename.{rename-err}
use fuchsia_storage.Vfs.Mutable.{
  handle_unlink, rename_paths, rename_parent, some_container, rename_checked, handle_rename,
}

rename_checked-err :
    (m : Store) (dir : ℕ) (r : Result ((PathString × PathString) × ℕ)) (e : Status)
    → (rename_checked m dir r).1 ≡ err e
    → (x : ℕ) → (rename_checked m dir r).0 x ≡ m x
rename_checked-err m dir (err s) e h x = refl
rename_checked-err m dir (ok ((src, dst), parent)) e h x =
    rename-err m dir parent (into_string src) (into_string dst) e h x

-- A Rename request that is answered with an error leaves every directory as it was.
pub handle_rename-err :
    (limits : PathLimits) (k : Token.Kernel) (alive : ℕ → Bool) (registry : Option Token.Inner)
    (flags : OpenFlags) (m : Store) (dir : ℕ) (src : Name) (token : ℕ) (dst : Name) (e : Status)
    → (handle_rename limits k alive registry flags m dir src token dst).1 ≡ err e
    → (x : ℕ) → (handle_rename limits k alive registry flags m dir src token dst).0 x ≡ m x
unfolding handle_rename
handle_rename-err limits k alive registry flags m dir src token dst e h x =
    rename_checked-err m dir _ e h x

rename_checked-ok :
    (m : Store) (dir : ℕ) (r : Result ((PathString × PathString) × ℕ))
    → (rename_checked m dir r).1 ≡ ok tt
    → (paths : PathString × PathString) × (parent : ℕ) × (r ≡ ok (paths, parent))
      × (rename_checked m dir r ≡ rename m dir (into_string paths.0) parent (into_string paths.1))
rename_checked-ok m dir (err e) h = cc
rename_checked-ok m dir (ok ((src, dst), parent)) h = ((src, dst), parent, refl, refl)

rename_paths-eq_ok :
    (limits : PathLimits) (flags : OpenFlags) (src dst : Name) (paths : PathString × PathString)
    → rename_paths limits flags src dst ≡ ok paths
    → (flags.right_writable ≡ true)
      × (validate_and_split limits src ≡ ok paths.0)
      × (validate_and_split limits dst ≡ ok paths.1)
      × ((is_single_component paths.0 && is_single_component paths.1) ≡ true)
unfolding rename_paths
rename_paths-eq_ok limits flags src dst paths h =
    let (writable, q) = reject-eq_ok _ _ _ h in
    let (src', of_src, q') = >>=-eq-ok (validate_and_split limits src) _ q in
    let (dst', of_dst, q'') = >>=-eq-ok (validate_and_split limits dst) _ q' in
    let (single, same) = reject-eq_ok _ _ _ q'' in
    let both : (src', dst') ≡ paths = cc same in
    rw (← both) (ground (arith, writable), of_src, of_dst, ground (arith, single))

some_container-eq_ok : (o : Option ℕ) (parent : ℕ) → some_container o ≡ ok parent → o ≡ some parent
some_container-eq_ok none parent h = cc
some_container-eq_ok (some x) parent h = cc

rename_parent-eq_ok :
    (k : Token.Kernel) (alive : ℕ → Bool) (registry : Option Token.Inner) (token parent : ℕ)
    → rename_parent k alive registry token ≡ ok parent
    → (inner : Token.Inner) × (registry ≡ some inner)
      × (Token.get_container k alive inner token ≡ ok (some parent))
unfolding rename_parent
rename_parent-eq_ok k alive none token parent h = cc
rename_parent-eq_ok k alive (some inner) token parent h =
    let (o, got, q) = >>=-eq-ok (Token.get_container k alive inner token) _ h in
    (inner, refl, got ∙ ap ok (some_container-eq_ok o parent q))

-- A Rename request that succeeds came through a writable connection, with two valid paths of a
-- single component each, in a scope with a token registry in which the token leads to a container;
-- and it has done the rename from the connection's directory to that container.
pub handle_rename-ok :
    (limits : PathLimits) (k : Token.Kernel) (alive : ℕ → Bool) (registry : Option Token.Inner)
    (flags : OpenFlags) (m : Store) (dir : ℕ) (src : Name) (token : ℕ) (dst : Name)
    → (handle_rename limits k alive registry flags m dir src token dst).1 ≡ ok tt
    → (flags.right_writable ≡ true)
      × (src' : PathString) × (dst' : PathString) × (inner : Token.Inner) × (parent : ℕ)
      × (validate_and_split limits src ≡ ok src')
      × (validate_and_split limits dst ≡ ok dst')
      × ((is_single_component src' && is_single_component dst') ≡ true)
      × (registry ≡ some inner)
      × (Token.get_container k alive inner token ≡ ok (some parent))
      × (handle_rename limits k alive registry flags m dir src token dst
          ≡ rename m dir (into_string src') parent (into_string dst'))
unfolding handle_rename
handle_rename-ok limits k alive registry flags m dir src token dst h =
    let (paths, parent, q, done) = rename_checked-ok m dir _ h in
    let (paths', of_paths, q') = >>=-eq-ok (rename_paths limits flags src dst) _ q in
    let (parent', of_parent, q'') = >>=-eq-ok (rename_parent k alive registry token) _ q' in
    let same : (paths' ≡ paths) × (parent' ≡ parent) = (cc q'', cc q'') in
    let (writable, of_src, of_dst, single) =
      rename_paths-eq_ok limits flags src dst paths (of_paths ∙ ap ok same.0) in
    let (inner, registered, leads) =
      rename_parent-eq_ok k alive registry token parent (of_parent ∙ ap ok same.1) in
    (writable, paths.0, paths.1, inner, parent, of_src, of_dst, single, registered, leads, done)

-- An Unlink request that is answered with success came through a writable connection, with a name
-- that is not empty, holds no slash and is neither "." nor "..".
pub handle_unlink-ok :
    (flags : OpenFlags) (s : Inner) (name : Name) (must_be_directory : Bool)
    → (handle_unlink flags s name must_be_directory).1 ≡ ok tt
    → (flags.right_writable ≡ true)
      × (is_empty_string name ≡ false)
      × (contains_slash name ≡ false)
      × ((name_eq name (b'.' ∷ []) || name_eq name (b'.' ∷ b'.' ∷ [])) ≡ false)
      × (handle_unlink flags s name must_be_directory ≡ unlink s name must_be_directory)
unfolding handle_unlink
handle_unlink-ok flags s name must_be_directory h =
    (ground arith, ground arith, ground arith, ground arith, ground arith)
