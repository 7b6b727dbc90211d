-- ===== src/Vfs/Registry/Token/RoundTrip.antt =====
-- Tokens and the containers that they lead to:
-- src/lib/storage/vfs/rust/src/registry/token_registry.rs.
use fuchsia_storage.Shared.{
  ℕ, ◌≡◌, refl, ◌∙◌, Bool, true, Option, none, some, lookup, lookup-insert, lookup-remove, remove,
  ==_self, arith, ◌==◌, Option-cases, Bool-cases, inl, inr,
}
use fuchsia_storage.Vfs.Status.{Result, ok, err, >>=-eq-ok}
use fuchsia_storage.Vfs.Registry.Token.{
  Kernel, KernelLaws, Inner, new, record_token, settle, create_token, get_or_create, get_token,
  upgrade, get_container, forget_token, forget, unregister,
}

-- The invariant that `Inner` documents, in both directions: a container's handle has a kernel
-- object id that leads back to it, and no other id does.
pub record IsLinked (k : Kernel) (s : Inner) : Type 0 where
  pub forth :
      (c h : ℕ)
      → lookup c s.container_to_token ≡ some h
      → (koid : ℕ) × (k.get_koid h ≡ ok koid) × (lookup koid s.token_to_container ≡ some c)
  pub back :
      (koid c : ℕ)
      → lookup koid s.token_to_container ≡ some c
      → (h : ℕ) × (lookup c s.container_to_token ≡ some h) × (k.get_koid h ≡ ok koid)

-- An event that `create` returns is new: no registered koid is its own.
abbrev pub IsFresh : Kernel → Inner → Type 0
IsFresh k s =
    (h koid : ℕ)
    → k.create ≡ ok h
    → k.get_koid h ≡ ok koid
    → lookup koid s.token_to_container ≡ none

new-IsLinked : (k : Kernel) → IsLinked k new
unfolding new lookup
new-IsLinked k = record { forth = λ c h e. cc; back = λ koid c e. cc }

record_token-IsLinked :
    (k : Kernel) (s : Inner) (container handle koid : ℕ)
    → lookup container s.container_to_token ≡ none
    → lookup koid s.token_to_container ≡ none
    → k.get_koid handle ≡ ok koid
    → IsLinked k s
    → IsLinked k (record_token s container handle koid)
unfolding record_token
record_token-IsLinked k s container handle koid absent fresh e l = record {
  forth = λ c h. rw lookup-insert (λ q. elim (Bool-cases (container == c)) [
    | inl same ↦ (koid, ground arith, simp lookup-insert (ground arith))
    | inr other ↦
        let old = l.forth c h (ground arith) in
        (old.0, old.1, simp lookup-insert (ground (arith, old.2)))
  ]);
  back = λ x c. rw lookup-insert (λ q. elim (Bool-cases (koid == x)) [
    | inl same ↦ (handle, simp lookup-insert (ground arith), ground arith)
    | inr other ↦
        let old = l.back x c (ground arith) in
        (old.0, simp lookup-insert (ground (arith, old.1)), old.2)
  ]);
}

-- What a successful `create_token` has got from the kernel.
create_token-eq_ok :
    (k : Kernel) (h koid res : ℕ)
    → create_token k ≡ ok (h, koid, res)
    → (k.create ≡ ok h) × (k.get_koid h ≡ ok koid) × (k.duplicate_handle h ≡ ok res)
unfolding create_token
create_token-eq_ok k h koid res q =
    let a = >>=-eq-ok k.create _ q in
    let b = >>=-eq-ok (k.get_koid a.0) _ a.2 in
    let d = >>=-eq-ok (k.duplicate_handle a.0) (λ r. ok (a.0, b.0, r)) b.2 in
    ground (arith, a.1, b.1, d.1, d.2)

settle-IsLinked :
    (k : Kernel) (s : Inner) (container : ℕ) (r : Result (ℕ × ℕ × ℕ))
    → create_token k ≡ r
    → lookup container s.container_to_token ≡ none
    → IsFresh k s
    → IsLinked k s
    → IsLinked k (settle s container r).0
unfolding settle
settle-IsLinked k s container (err e) q absent fresh l = l
settle-IsLinked k s container (ok (h, koid, res)) q absent fresh l =
    let (made, id, dup) = create_token-eq_ok k h koid res q in
    record_token-IsLinked k s container h koid absent (fresh h koid made id) id l

-- Where an event that the kernel creates is new, `get_token` keeps the two maps linked, whichever
-- kernel call fails.
pub get_token-IsLinked :
    (k : Kernel) (s : Inner) (container : ℕ)
    → IsFresh k s
    → IsLinked k s
    → IsLinked k (get_token k s container).0
unfolding get_token get_or_create
get_token-IsLinked k s container fresh l =
    elim (Option-cases (lookup container s.container_to_token)) [
      | inl e ↦
          rw (e, get_or_create) (settle-IsLinked k s container (create_token k) refl e fresh l)
      | inr (h, e) ↦ rw (e, get_or_create) l
    ]

remove-IsLinked :
    (k : Kernel) (s : Inner) (container h koid : ℕ)
    → lookup container s.container_to_token ≡ some h
    → k.get_koid h ≡ ok koid
    → lookup koid s.token_to_container ≡ some container
    → IsLinked k s
    → IsLinked k (record {
      container_to_token = remove container s.container_to_token;
      token_to_container = remove koid s.token_to_container;
    })
remove-IsLinked k s container h koid e id there l = record {
  forth = λ c g. rw lookup-remove (λ q.
      let old = l.forth c g (ground arith) in
      (old.0, old.1, simp lookup-remove (ground (arith, old.2))));
  back = λ x c. rw lookup-remove (λ q.
      let old = l.back x c (ground arith) in
      (old.0, simp lookup-remove (ground (arith, old.1, old.2)), old.2));
}

-- A token that `get_token` returns is a duplicate of the handle that is then registered.
get_token-registers :
    (k : Kernel) (s : Inner) (container token : ℕ)
    → (get_token k s container).1 ≡ ok token
    → (h : ℕ) × (lookup container (get_token k s container).0.container_to_token ≡ some h)
      × (k.duplicate_handle h ≡ ok token)
unfolding get_token get_or_create
get_token-registers k s container token =
    elim (Option-cases (lookup container s.container_to_token)) [
      | inl e ↦ rw (e, get_or_create) (settled (create_token k) refl)
      | inr (h, e) ↦ rw (e, get_or_create) (λ q. (h, e, q))
    ]
  where
    settled :
        (r : Result (ℕ × ℕ × ℕ))
        → create_token k ≡ r
        → (settle s container r).1 ≡ ok token
        → (h : ℕ) × (lookup container (settle s container r).0.container_to_token ≡ some h)
          × (k.duplicate_handle h ≡ ok token)
    settled (err e) p q = cc
    settled (ok (h, koid, res)) p q =
        let made = create_token-eq_ok k h koid res p in
        (h, simp (lookup-insert, ==_self), ground (arith, made.2))

leads_to :
    (k : Kernel) (alive : ℕ → Bool) (s : Inner) (container token koid : ℕ)
    → alive container ≡ true
    → k.get_koid token ≡ ok koid
    → lookup koid s.token_to_container ≡ some container
    → get_container k alive s token ≡ ok (some container)
unfolding get_container upgrade
leads_to k alive s container token koid live id there = rw (id, there, live)

-- `unregister` keeps two linked maps linked, whether or not the container is registered.
pub unregister-IsLinked :
    (k : Kernel) (s : Inner) (container : ℕ) → IsLinked k s → IsLinked k (unregister k s container)
unfolding unregister forget
unregister-IsLinked k s container l = elim (Option-cases (lookup container s.container_to_token)) [
  | inl e ↦ rw (e, forget) l
  | inr (h, e) ↦
      let (koid, id, there) = l.forth container h e in
      rw (e, forget) (rw (id, forget_token) (remove-IsLinked k s container h koid e id there l))
]

-- Where the two maps are linked, an event that the kernel creates is new, a duplicate refers to the
-- same object and the container is alive, a token that `get_token` returns leads `get_container`
-- back to the container.
pub get_container-get_token :
    (k : Kernel) (alive : ℕ → Bool) (s : Inner) (container token : ℕ)
    → KernelLaws k
    → IsFresh k s
    → IsLinked k s
    → alive container ≡ true
    → (get_token k s container).1 ≡ ok token
    → get_container k alive (get_token k s container).0 token ≡ ok (some container)
get_container-get_token k alive s container token laws fresh l live q =
    let (h, at, dup) = get_token-registers k s container token q in
    let linked = get_token-IsLinked k s container fresh l in
    let (koid, id, there) = linked.forth container h at in
    leads_to k alive (get_token k s container).0 container token koid live
      (laws.same_object h token dup ∙ id) there

upgrade-eq_some : (alive : ℕ → Bool) (o : Option ℕ) (c : ℕ) → upgrade alive o ≡ some c → o ≡ some c
unfolding upgrade
upgrade-eq_some alive none c q = cc
upgrade-eq_some alive (some x) c q = ground arith

get_container-eq_some :
    (k : Kernel) (alive : ℕ → Bool) (s : Inner) (c token : ℕ)
    → get_container k alive s token ≡ ok (some c)
    → (koid : ℕ) × (k.get_koid token ≡ ok koid) × (lookup koid s.token_to_container ≡ some c)
unfolding get_container
get_container-eq_some k alive s c token q =
    let a = >>=-eq-ok (k.get_koid token) _ q in
    (a.0, a.1, upgrade-eq_some alive _ c (ground (arith, a.2)))

forget-looked_up :
    (k : Kernel) (s : Inner) (container h koid : ℕ)
    → lookup container s.container_to_token ≡ some h
    → k.get_koid h ≡ ok koid
    → (unregister k s container).token_to_container ≡ remove koid s.token_to_container
unfolding unregister forget forget_token
forget-looked_up k s container h koid e id = rw (e, forget) (rw (id, forget_token))

leads_nowhere :
    (k : Kernel) (alive : ℕ → Bool) (s : Inner) (token koid : ℕ)
    → k.get_koid token ≡ ok koid
    → lookup koid s.token_to_container ≡ none
    → get_container k alive s token ≡ ok none
unfolding get_container upgrade
leads_nowhere k alive s token koid id gone = rw (id, gone)

-- Where the two maps are linked, a token that led to a container leads nowhere once the container
-- is unregistered.
pub get_container-unregister :
    (k : Kernel) (alive : ℕ → Bool) (s : Inner) (container token : ℕ)
    → IsLinked k s
    → get_container k alive s token ≡ ok (some container)
    → get_container k alive (unregister k s container) token ≡ ok none
get_container-unregister k alive s container token l q =
    let (koid, of_token, there) = get_container-eq_some k alive s container token q in
    let (h, at, id) = l.back koid container there in
    leads_nowhere k alive (unregister k s container) token koid of_token
      (rw (forget-looked_up k s container h koid at id) (simp (lookup-remove, ==_self)))
